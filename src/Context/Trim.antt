-- ===== src/Context/Trim.antt =====
-- What the two loops of router/src/providers/context-provider.ts drop and keep.
use local_llms.Base.{
  ℕ, zero, suc, ◌+◌, ◌-◌, ◌≤◌, ◌≡◌, refl, ap, true, false, ◌&&◌, List, [], ◌∷◌, ◌++◌, includes,
  length, drop, ltb, Bool-cases, inl, inr, ◌⊎◌, arith,
}
use local_llms.Canonical.{CanonicalMessage}
use local_llms.Context.{
  truncate_max_turns, Item, with_refs, messages_of, refs_of, cap_turns, first_count, trim_tokens,
  all_included,
}

not_both : (a b c d : ℕ) → (ltb a b && ltb c d) ≡ false → (b ≤ a) ⊎ (d ≤ c)
not_both a b c d h = ground arith

swap_sides : {P Q : Type 0} → P ⊎ Q → Q ⊎ P
swap_sides (inl p) = inr p
swap_sides (inr q) = inl q

all_included-cons :
    (r : ℕ) (refs zs : List ℕ) → all_included refs zs ≡ true → all_included (r ∷ refs) zs ≡ true
unfolding all_included
all_included-cons r refs [] h = refl
all_included-cons r refs (z ∷ zs) h = ground (arith, all_included-cons r refs zs)

pub all_included_self : (refs : List ℕ) → all_included refs refs ≡ true
unfolding all_included
all_included_self [] = refl
all_included_self (r ∷ refs) =
    ground (arith, all_included-cons r refs refs (all_included_self refs))

module _ {J : Type 0} where
  pub cap_turns-drop :
      (n : ℕ) (is : List (Item J))
      → n ≤ length is
      → ((cap_turns n is).1 ≡ drop (cap_turns n is).0 is) × ((cap_turns n is).0 + n ≤ length is)
  unfolding cap_turns
  cap_turns-drop n [] h = (refl, omega (arith, h))
  cap_turns-drop n (i ∷ is) h =
      elim (Bool-cases (ltb 100 (length (i ∷ is)) && ltb n (length (i ∷ is)))) [
        | inl on ↦
            let more : n ≤ length is = ground (arith, on) in
            let (e, le) = cap_turns-drop n is more in rw on (e, omega (arith, le))
        | inr off ↦ rw off (refl, omega (arith, h))
      ]

  pub cap_turns_end :
      (n : ℕ) (is : List (Item J))
      → (length (cap_turns n is).1 ≤ truncate_max_turns) ⊎ (length (cap_turns n is).1 ≤ n)
  unfolding cap_turns
  cap_turns_end n [] = inl (omega arith)
  cap_turns_end n (i ∷ is) =
      elim (Bool-cases (ltb 100 (length (i ∷ is)) && ltb n (length (i ∷ is)))) [
        | inl on ↦ rw on (cap_turns_end n is)
        | inr off ↦ rw off (not_both 100 _ n _ off)
      ]

  pub trim_tokens-drop :
      (n budget running : ℕ) (counts : List ℕ) (is : List (Item J))
      → n ≤ length is
      → ((trim_tokens n budget running counts is).2
          ≡ drop (trim_tokens n budget running counts is).0 is)
        × ((trim_tokens n budget running counts is).0 + n ≤ length is)
  unfolding trim_tokens
  trim_tokens-drop n budget running counts [] h = (refl, omega (arith, h))
  trim_tokens-drop n budget running counts (i ∷ is) h =
      elim (Bool-cases (ltb n (length (i ∷ is)) && ltb budget running)) [
        | inl on ↦
            let more : n ≤ length is = ground (arith, on) in
            let (e, le) =
              trim_tokens-drop n budget (running - first_count counts) (drop 1 counts) is more in
            rw on (e, omega (arith, le))
        | inr off ↦ rw off (refl, omega (arith, h))
      ]

  pub trim_tokens_end :
      (n budget running : ℕ) (counts : List ℕ) (is : List (Item J))
      → ((trim_tokens n budget running counts is).1 ≤ budget)
        ⊎ (length (trim_tokens n budget running counts is).2 ≤ n)
  unfolding trim_tokens
  trim_tokens_end n budget running counts [] = inr (omega arith)
  trim_tokens_end n budget running counts (i ∷ is) =
      elim (Bool-cases (ltb n (length (i ∷ is)) && ltb budget running)) [
        | inl on ↦
            rw on (trim_tokens_end n budget (running - first_count counts) (drop 1 counts) is)
        | inr off ↦ rw off (swap_sides (not_both n _ budget _ off))
      ]

  -- Dropping no more than the older items leaves the newer ones whole.
  pub drop-append_left :
      (d : ℕ) (xs ys : List (Item J))
      → d + length ys ≤ length (xs ++ ys)
      → drop d (xs ++ ys) ≡ drop d xs ++ ys
  drop-append_left zero xs ys h = refl
  drop-append_left (suc d) [] ys h = absurd (omega (arith, h))
  drop-append_left (suc d) (x ∷ xs) ys h = drop-append_left d xs ys (omega (arith, h))

  pub messages_of-drop :
      (d n : ℕ) (ms : List (CanonicalMessage J)) (ys : List (Item J))
      → messages_of (drop d (with_refs n ms) ++ ys) ≡ drop d ms ++ messages_of ys
  messages_of-drop zero n [] ys = refl
  messages_of-drop zero n (m ∷ ms) ys = ap (◌∷◌ m) (messages_of-drop zero (suc n) ms ys)
  messages_of-drop (suc d) n [] ys = refl
  messages_of-drop (suc d) n (m ∷ ms) ys = messages_of-drop d (suc n) ms ys

  pub messages_of-with_refs :
      (n : ℕ) (ms : List (CanonicalMessage J)) → messages_of (with_refs n ms) ≡ ms
  messages_of-with_refs n [] = refl
  messages_of-with_refs n (m ∷ ms) = ap (◌∷◌ m) (messages_of-with_refs (suc n) ms)

  pub length-with_refs :
      (n : ℕ) (ms : List (CanonicalMessage J)) → length (with_refs n ms) ≡ length ms
  length-with_refs n [] = refl
  length-with_refs n (m ∷ ms) = ap suc (length-with_refs (suc n) ms)

  includes-refs :
      (r : ℕ) (xs ys : List (Item J))
      → includes r (refs_of ys) ≡ true
      → includes r (refs_of (xs ++ ys)) ≡ true
  includes-refs r [] ys h = h
  includes-refs r ((q, m) ∷ xs) ys h = ground (arith, includes-refs r xs ys h)

  -- The last test of the code finds what stands behind other items.
  pub all_included-append :
      (xs ys : List (Item J)) (zs : List ℕ)
      → all_included (refs_of ys) zs ≡ true
      → all_included (refs_of (xs ++ ys)) zs ≡ true
  unfolding all_included
  all_included-append xs ys [] h = refl
  all_included-append xs ys (z ∷ zs) h =
      ground (arith, includes-refs z xs ys, all_included-append xs ys zs)
