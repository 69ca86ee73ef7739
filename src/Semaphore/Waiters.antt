-- ===== src/Semaphore/Waiters.antt =====
-- The wait queue: its ids rise, and removing or promoting a waiter keeps what is known of the rest.
use local_llms.Base.{
  ℕ, suc, ◌≤◌, ◌<◌, ◌≡◌, refl, true, false, some, List, [], ◌∷◌, ◌++◌, arith, length, All, includes,
  erase, includes-erase-false, if◌then◌else◌,
}
use local_llms.Semaphore.{Waiter, Outcome, is_settled, remove_waiter, find_waiter}

-- The ids rise strictly from `lo` on and stay below `hi`.
abbrev pub Between : ℕ → List Waiter → ℕ → Type 0
Between lo [] hi = lo ≤ hi
Between lo (w ∷ ws) hi = (lo ≤ w.id) × Between (suc w.id) ws hi

-- A waiter's promise is open, and it holds no slot.
abbrev pub IsPending : List ℕ → List (ℕ × Outcome) → Waiter → Type 0
IsPending held log w = (includes w.id held ≡ false) × (is_settled w.id log ≡ false)

abbrev pub Below : ℕ → List ℕ → Type 0
Below n = All (λ i. i < n)

abbrev pub SettledBelow : ℕ → List (ℕ × Outcome) → Type 0
SettledBelow n [] = Unit {0}
SettledBelow n ((i, o) ∷ log) = (i < n) × SettledBelow n log

abbrev pub signalled : List Waiter → List Waiter
signalled [] = []
signalled (w ∷ ws) = if w.signal then w ∷ signalled ws else signalled ws

pub Between-lower : (k lo hi : ℕ) (ws : List Waiter) → k ≤ lo → Between lo ws hi → Between k ws hi
Between-lower k lo hi [] h b = omega arith
Between-lower k lo hi (w ∷ ws) h b = (omega arith, b.1)

pub Between-le : (lo hi : ℕ) (ws : List Waiter) → Between lo ws hi → lo ≤ hi
Between-le lo hi [] b = b
Between-le lo hi (w ∷ ws) b = omega (arith, Between-le (suc w.id) hi ws b.1)

pub Between-push :
    (lo hi : ℕ) (ws : List Waiter) (w : Waiter)
    → w.id ≡ hi
    → Between lo ws hi
    → Between lo (ws ++ w ∷ []) (suc hi)
Between-push lo hi [] w e b = omega arith
Between-push lo hi (x ∷ ws) w e b = (b.0, Between-push (suc x.id) hi ws w e b.1)

pub Between-suc : (lo hi : ℕ) (ws : List Waiter) → Between lo ws hi → Between lo ws (suc hi)
Between-suc lo hi [] b = omega arith
Between-suc lo hi (w ∷ ws) b = (b.0, Between-suc (suc w.id) hi ws b.1)

pub Between-remove_waiter :
    (i lo hi : ℕ) (ws : List Waiter) → Between lo ws hi → Between lo (remove_waiter i ws) hi
Between-remove_waiter i lo hi [] b = b
Between-remove_waiter i lo hi (w ∷ ws) b =
    ground (arith, Between-lower lo (suc w.id) hi ws, Between-remove_waiter i (suc w.id) hi ws b.1)

pub find_waiter-id : (i : ℕ) (ws : List Waiter) (w : Waiter) → find_waiter i ws ≡ some w → w.id ≡ i
find_waiter-id i [] w e = ground arith
find_waiter-id i (x ∷ ws) w e = ground (arith, find_waiter-id i ws w)

pub find_waiter-lt :
    (i lo hi : ℕ) (ws : List Waiter) (w : Waiter)
    → Between lo ws hi
    → find_waiter i ws ≡ some w
    → (lo ≤ w.id) × (w.id < hi)
find_waiter-lt i lo hi [] w b e = ground arith
find_waiter-lt i lo hi (x ∷ ws) w b e =
    ground (arith, find_waiter-lt i (suc x.id) hi ws w b.1, Between-le (suc x.id) hi ws b.1)

pub find_waiter-All {κ} :
    (P : Waiter → Type κ) (i : ℕ) (ws : List Waiter) (w : Waiter)
    → All P ws
    → find_waiter i ws ≡ some w
    → P w
find_waiter-All P i [] w a e = absurd (ground arith)
find_waiter-All P i (x ∷ ws) w a e = ground (arith, a.0, find_waiter-All P i ws w a.1)

pub length-remove_waiter :
    (i : ℕ) (ws : List Waiter) (w : Waiter)
    → find_waiter i ws ≡ some w
    → suc (length (remove_waiter i ws)) ≡ length ws
length-remove_waiter i [] w e = ground arith
length-remove_waiter i (x ∷ ws) w e = ground (arith, length-remove_waiter i ws w)

-- Promoting or settling the call `k` leaves the later waiters pending.
pub IsPending-grant :
    (k hi : ℕ) (held : List ℕ) (log : List (ℕ × Outcome)) (o : Outcome) (ws : List Waiter)
    → Between (suc k) ws hi
    → All (IsPending held log) ws
    → All (IsPending (k ∷ held) ((k, o) ∷ log)) ws
IsPending-grant k hi held log o [] b a = tt
IsPending-grant k hi held log o (w ∷ ws) b a = (
  (ground arith, ground arith),
  IsPending-grant k hi held log o ws (Between-lower (suc k) (suc w.id) hi ws (omega arith) b.1) a.1,
)

pub IsPending-remove_waiter :
    (i lo hi : ℕ) (held : List ℕ) (log : List (ℕ × Outcome)) (o : Outcome) (ws : List Waiter)
    → Between lo ws hi
    → All (IsPending held log) ws
    → All (IsPending held ((i, o) ∷ log)) (remove_waiter i ws)
IsPending-remove_waiter i lo hi held log o [] b a = tt
IsPending-remove_waiter i lo hi held log o (w ∷ ws) b a = ground (
  arith,
  IsPending-remove_waiter i (suc w.id) hi held log o ws b.1 a.1,
  IsPending-settle w.id hi held log o ws b.1 a.1,
)
  where
    IsPending-settle :
        (k hi : ℕ) (held : List ℕ) (log : List (ℕ × Outcome)) (o : Outcome) (vs : List Waiter)
        → Between (suc k) vs hi
        → All (IsPending held log) vs
        → All (IsPending held ((k, o) ∷ log)) vs
    IsPending-settle k hi held log o [] b a = tt
    IsPending-settle k hi held log o (v ∷ vs) b a = (
      (a.0.0, ground arith),
      IsPending-settle k hi held log o vs (Between-lower (suc k) (suc v.id) hi vs (omega arith) b.1)
          a.1,
    )

-- Releasing a slot leaves every waiter pending.
pub IsPending-erase :
    (i : ℕ) (held : List ℕ) (log : List (ℕ × Outcome)) (ws : List Waiter)
    → All (IsPending held log) ws
    → All (IsPending (erase i held) log) ws
IsPending-erase i held log [] a = tt
IsPending-erase i held log (w ∷ ws) a =
    ((includes-erase-false i w.id held a.0.0, a.0.1), IsPending-erase i held log ws a.1)

-- An id that has not been given out yet occurs nowhere.
pub includes_fresh : (n i : ℕ) (xs : List ℕ) → Below n xs → n ≤ i → includes i xs ≡ false
includes_fresh n i [] b h = refl
includes_fresh n i (x ∷ xs) b h = ground (arith, includes_fresh n i xs b.1)

pub is_settled_fresh :
    (n i : ℕ) (log : List (ℕ × Outcome)) → SettledBelow n log → n ≤ i → is_settled i log ≡ false
is_settled_fresh n i [] b h = refl
is_settled_fresh n i ((j, o) ∷ log) b h = ground (arith, is_settled_fresh n i log b.1)

pub Below-suc : (n : ℕ) (xs : List ℕ) → Below n xs → Below (suc n) xs
Below-suc n [] b = tt
Below-suc n (x ∷ xs) b = (omega arith, Below-suc n xs b.1)

pub SettledBelow-suc :
    (n : ℕ) (log : List (ℕ × Outcome)) → SettledBelow n log → SettledBelow (suc n) log
SettledBelow-suc n [] b = tt
SettledBelow-suc n ((i, o) ∷ log) b = (omega arith, SettledBelow-suc n log b.1)

pub Below-erase : (n i : ℕ) (xs : List ℕ) → Below n xs → Below n (erase i xs)
Below-erase n i [] b = tt
Below-erase n i (x ∷ xs) b = ground (arith, Below-erase n i xs b.1)

pub signalled-push :
    (ws : List Waiter) (w : Waiter)
    → signalled (ws ++ w ∷ []) ≡ (if w.signal then signalled ws ++ w ∷ [] else signalled ws)
signalled-push [] w = refl
signalled-push (x ∷ ws) w = ground (arith, signalled-push ws w)

remove_waiter_low :
    (i lo hi : ℕ) (ws : List Waiter)
    → Between lo ws hi
    → i < lo
    → remove_waiter i (signalled ws) ≡ signalled ws
remove_waiter_low i lo hi [] b h = refl
remove_waiter_low i lo hi (w ∷ ws) b h = ground (arith, remove_waiter_low i (suc w.id) hi ws b.1)

pub signalled-remove_waiter :
    (i lo hi : ℕ) (ws : List Waiter)
    → Between lo ws hi
    → signalled (remove_waiter i ws) ≡ remove_waiter i (signalled ws)
signalled-remove_waiter i lo hi [] b = refl
signalled-remove_waiter i lo hi (w ∷ ws) b = ground (
  arith,
  signalled-remove_waiter i (suc w.id) hi ws b.1,
  remove_waiter_low i (suc w.id) hi ws b.1,
)

-- A waiter that has an abort listener stands in the queue.
pub find_waiter-signalled :
    (i lo hi : ℕ) (ws : List Waiter) (w : Waiter)
    → Between lo ws hi
    → find_waiter i (signalled ws) ≡ some w
    → (find_waiter i ws ≡ some w) × (w.signal ≡ true)
find_waiter-signalled i lo hi [] w b e = ground arith
find_waiter-signalled i lo hi (x ∷ ws) w b e = ground (
  arith,
  find_waiter-signalled i (suc x.id) hi ws w b.1,
  find_waiter-lt i (suc x.id) hi ws w b.1,
  find_waiter-id i ws w,
)

-- Without a listener, removing the waiter changes no listener.
pub remove_waiter-signalled :
    (i lo hi : ℕ) (ws : List Waiter) (w : Waiter)
    → Between lo ws hi
    → find_waiter i ws ≡ some w
    → w.signal ≡ false
    → remove_waiter i (signalled ws) ≡ signalled ws
remove_waiter-signalled i lo hi [] w b e n = refl
remove_waiter-signalled i lo hi (x ∷ ws) w b e n = ground (
  arith,
  remove_waiter-signalled i (suc x.id) hi ws w b.1,
  remove_waiter_low i (suc x.id) hi ws b.1,
)

-- The promise of a new call is no waiter's.
pub IsPending-new :
    (n lo : ℕ) (held : List ℕ) (log : List (ℕ × Outcome)) (o : Outcome) (ws : List Waiter)
    → Between lo ws n
    → All (IsPending held log) ws
    → All (IsPending held ((n, o) ∷ log)) ws × All (IsPending (n ∷ held) ((n, o) ∷ log)) ws
IsPending-new n lo held log o [] b a = (tt, tt)
IsPending-new n lo held log o (w ∷ ws) b a =
    let rest = IsPending-new n (suc w.id) held log o ws b.1 a.1 in
    let lt = Between-le (suc w.id) n ws b.1 in
    (((ground arith, ground arith), rest.0), ((ground arith, ground arith), rest.1))
