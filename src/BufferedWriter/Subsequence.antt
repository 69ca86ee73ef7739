-- ===== src/BufferedWriter/Subsequence.antt =====
-- One list is another with some entries left out.
use local_llms.Base.{ℕ, zero, suc, List, [], ◌∷◌, ◌++◌, drop}

pub data Subsequence {A : Type 0} : List A → List A → Type 0 where
  end : Subsequence [] []
  keep : {x : A} {xs ys : List A} → Subsequence xs ys → Subsequence (x ∷ xs) (x ∷ ys)
  skip : {x : A} {xs ys : List A} → Subsequence xs ys → Subsequence xs (x ∷ ys)

module _ {A : Type 0} where
  pub whole : (xs : List A) → Subsequence xs xs
  whole [] = end
  whole (x ∷ xs) = keep (whole xs)

  pub none_of : (xs : List A) → Subsequence [] xs
  none_of [] = end
  none_of (x ∷ xs) = skip (none_of xs)

  pub join :
      {xs ys us vs : List A}
      → Subsequence xs ys
      → Subsequence us vs
      → Subsequence (xs ++ us) (ys ++ vs)
  join end t = t
  join (keep s) t = keep (join s t)
  join (skip s) t = skip (join s t)

  pub chain :
      {ys zs : List A} → Subsequence ys zs → {xs : List A} → Subsequence xs ys → Subsequence xs zs
  chain end s = s
  chain (skip t) s = skip (chain t s)
  chain (keep t) (keep s) = keep (chain t s)
  chain (keep t) (skip s) = skip (chain t s)

  pub dropped : (n : ℕ) (xs : List A) → Subsequence (drop n xs) xs
  dropped zero xs = whole xs
  dropped (suc n) [] = end
  dropped (suc n) (x ∷ xs) = skip (dropped n xs)
