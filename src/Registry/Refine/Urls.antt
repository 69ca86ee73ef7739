-- ===== src/Registry/Refine/Urls.antt =====
-- The URL test of router/src/config/registry.ts.
use local_llms.Base.{
  ◌≡◌, refl, sym, ap, ◌∙◌, subst, Bool, true, false, List, [], ◌∷◌, ◌++◌, Text, text_eq,
  text_eq_iff, text_eq_refl, includes_text, if◌then◌else◌, All, ◌↔◌, ◌⊎◌, arith, Bool-cases, inl,
  inr,
}
use local_llms.Registry.{backend_name, ModelEntry, enabled_models}
use local_llms.Registry.Refine.{add_text, add_url, url_backends, is_shared, url_issues}
use local_llms.Registry.Refine.Budgets.{weaken_each}

-- The backend `b` at `url` and the entry agree: the entry has another URL or the same backend.
abbrev pub Agrees : Text → Text → ModelEntry → Type 0
Agrees url b m = (text_eq url m.backend_url ≡ false) ⊎ (b ≡ backend_name m.backend)

-- Any two entries with one URL have one backend.
abbrev pub HasUniqueUrls : List ModelEntry → Type 0
HasUniqueUrls [] = Unit
HasUniqueUrls (m ∷ ms) = All (Agrees m.backend_url (backend_name m.backend)) ms × HasUniqueUrls ms

-- The loop has put the backend into the set of the URL.
abbrev has : Text → Text → List (Text × List Text) → Bool
has u b [] = false
has u b ((k, bs) ∷ urls) = if text_eq k u then includes_text b bs else has u b urls

includes-append_left :
    (b c : Text) (bs : List Text)
    → includes_text b bs ≡ true
    → includes_text b (bs ++ c ∷ []) ≡ true
includes-append_left b c [] h = absurd (cc h)
includes-append_left b c (x ∷ bs) h = ground (arith, includes-append_left b c bs)

includes-append_last : (c : Text) (bs : List Text) → includes_text c (bs ++ c ∷ []) ≡ true
includes-append_last c [] = ground (arith, text_eq_refl c)
includes-append_last c (x ∷ bs) = ground (arith, includes-append_last c bs)

includes-add_text :
    (b c : Text) (bs : List Text)
    → includes_text b bs ≡ true
    → includes_text b (add_text c bs) ≡ true
includes-add_text b c bs h = ground (arith, includes-append_left b c bs h, h)

includes-add_text_self : (c : Text) (bs : List Text) → includes_text c (add_text c bs) ≡ true
includes-add_text_self c bs = ground (arith, includes-append_last c bs)

has-add_url :
    (u b k c : Text) (urls : List (Text × List Text))
    → has u b urls ≡ true
    → has u b (add_url k c urls) ≡ true
unfolding add_url
has-add_url u b k c [] h = absurd (cc h)
has-add_url u b k c ((k', bs) ∷ urls) h =
    ground (arith, includes-add_text b c bs, has-add_url u b k c urls)

has-add_url_self : (k c : Text) (urls : List (Text × List Text)) → has k c (add_url k c urls) ≡ true
unfolding add_url
has-add_url_self k c [] = ground (arith, text_eq_refl k, text_eq_refl c)
has-add_url_self k c ((k', bs) ∷ urls) =
    ground (arith, includes-add_text_self c bs, has-add_url_self k c urls)

-- The loop over entries none of which is disabled.
abbrev collect : List ModelEntry → List (Text × List Text) → List (Text × List Text)
collect [] urls = urls
collect (m ∷ ms) urls = collect ms (add_url m.backend_url (backend_name m.backend) urls)

url_backends-collect :
    (ms : List ModelEntry) (urls : List (Text × List Text))
    → url_backends ms urls ≡ collect (enabled_models ms) urls
unfolding url_backends enabled_models
url_backends-collect [] urls = refl
url_backends-collect (m ∷ ms) urls = elim (Bool-cases m.disabled) [
  | inl d ↦ simp d (url_backends-collect ms urls)
  | inr d ↦ simp d (url_backends-collect ms (add_url m.backend_url (backend_name m.backend) urls))
]

has-collect :
    (u b : Text) (ms : List ModelEntry) (urls : List (Text × List Text))
    → has u b urls ≡ true
    → has u b (collect ms urls) ≡ true
has-collect u b [] urls h = h
has-collect u b (m ∷ ms) urls h =
    has-collect u b ms _ (has-add_url u b m.backend_url (backend_name m.backend) urls h)

abbrev IsUnshared : Text × List Text → Type 0
IsUnshared p = is_shared p.1 ≡ false

unshared_equal :
    (b c : Text) (bs : List Text)
    → is_shared bs ≡ false
    → includes_text b bs ≡ true
    → includes_text c bs ≡ true
    → b ≡ c
unshared_equal b c [] s h k = absurd (cc h)
unshared_equal b c (x ∷ []) s h k =
    sym ((text_eq_iff x b).0 (ground (arith, h))) ∙ (text_eq_iff x c).0 (ground (arith, k))
unshared_equal b c (x ∷ y ∷ bs) s h k = absurd (cc s)

has_equal :
    (u b c : Text) (urls : List (Text × List Text))
    → All IsUnshared urls
    → has u b urls ≡ true
    → has u c urls ≡ true
    → b ≡ c
has_equal u b c [] s h k = absurd (cc h)
has_equal u b c ((k', bs) ∷ urls) s h k =
    ground (arith, unshared_equal b c bs s.0, has_equal u b c urls s.1)

backends_agree_lem :
    (u b : Text) (ms : List ModelEntry) (urls : List (Text × List Text))
    → All IsUnshared (collect ms urls)
    → has u b urls ≡ true
    → All (Agrees u b) ms
backends_agree_lem u b [] urls s h = tt
backends_agree_lem u b (m ∷ ms) urls s h =
    let c = backend_name m.backend in
    let added = add_url m.backend_url c urls in
    let here = has-add_url u b m.backend_url c urls h in
    let self = has-collect m.backend_url c ms added (has-add_url_self m.backend_url c urls) in
    elim (Bool-cases (text_eq u m.backend_url)) [
      | inl e ↦
          let there =
            subst (λ x. has x c (collect ms added) ≡ true) (sym ((text_eq_iff u m.backend_url).0 e))
              self in
          (
            inr (has_equal u b c (collect ms added) s (has-collect u b ms added here) there),
            backends_agree_lem u b ms added s here,
          )
      | inr e ↦ (inl e, backends_agree_lem u b ms added s here)
    ]

collect_only :
    (ms : List ModelEntry) (urls : List (Text × List Text))
    → All IsUnshared (collect ms urls)
    → HasUniqueUrls ms
collect_only [] urls s = tt
collect_only (m ∷ ms) urls s =
    let added = add_url m.backend_url (backend_name m.backend) urls in
    (
      backends_agree_lem m.backend_url (backend_name m.backend) ms added s
          (has-add_url_self m.backend_url (backend_name m.backend) urls),
      collect_only ms added s,
    )

-- A set with one backend, with which the entries still to come agree.
abbrev IsSingle : List ModelEntry → Text × List Text → Type 0
IsSingle ms (u, []) = ⊥
IsSingle ms (u, b ∷ []) = All (Agrees u b) ms
IsSingle ms (u, b ∷ c ∷ bs) = ⊥

set_tail_lem :
    (m : ModelEntry) (ms : List ModelEntry) (p : Text × List Text)
    → IsSingle (m ∷ ms) p
    → IsSingle ms p
set_tail_lem m ms (u, []) h = h
set_tail_lem m ms (u, b ∷ []) h = h.1
set_tail_lem m ms (u, b ∷ c ∷ bs) h = h

set_add_lem :
    (m : ModelEntry) (ms : List ModelEntry) (u : Text) (bs : List Text)
    → text_eq u m.backend_url ≡ true
    → IsSingle (m ∷ ms) (u, bs)
    → IsSingle ms (u, add_text (backend_name m.backend) bs)
set_add_lem m ms u [] e h = absurd h
set_add_lem m ms u (b ∷ []) e (inl n, h) = absurd (cc (e, n))
set_add_lem m ms u (b ∷ []) e (inr a, h) =
    let known : text_eq b (backend_name m.backend) ≡ true =
      (text_eq_iff b (backend_name m.backend)).1 a in
    rw known h
set_add_lem m ms u (b ∷ c ∷ bs) e h = absurd h

sets_add_lem :
    (m : ModelEntry) (ms : List ModelEntry) (urls : List (Text × List Text))
    → All (Agrees m.backend_url (backend_name m.backend)) ms
    → All (IsSingle (m ∷ ms)) urls
    → All (IsSingle ms) (add_url m.backend_url (backend_name m.backend) urls)
unfolding add_url
sets_add_lem m ms [] a h = (a, tt)
sets_add_lem m ms ((u, bs) ∷ urls) a (s, h) = elim (Bool-cases (text_eq u m.backend_url)) [
  | inl e ↦ rw e (
    set_add_lem m ms u bs e s,
    weaken_each (IsSingle (m ∷ ms)) (IsSingle ms) urls (set_tail_lem m ms) h,
  )
  | inr e ↦ rw e (set_tail_lem m ms (u, bs) s, sets_add_lem m ms urls a h)
]

single-IsUnshared : (p : Text × List Text) → IsSingle [] p → IsUnshared p
single-IsUnshared (u, []) h = absurd h
single-IsUnshared (u, b ∷ []) h = refl
single-IsUnshared (u, b ∷ c ∷ bs) h = absurd h

collect_lem :
    (ms : List ModelEntry) (urls : List (Text × List Text))
    → HasUniqueUrls ms
    → All (IsSingle ms) urls
    → All IsUnshared (collect ms urls)
collect_lem [] urls u h = weaken_each (IsSingle []) IsUnshared urls single-IsUnshared h
collect_lem (m ∷ ms) urls (a, u) h = collect_lem ms _ u (sets_add_lem m ms urls a h)

url_issues_iff : (urls : List (Text × List Text)) → (url_issues urls ≡ []) ↔ All IsUnshared urls
unfolding url_issues
url_issues_iff [] = ((λ e. tt), (λ h. refl))
url_issues_iff ((u, bs) ∷ urls) = ground (arith, url_issues_iff urls)

-- The URL test raises no issue exactly if any two enabled entries with one URL have one backend.
pub url_issues-url_backends_iff :
    (ms : List ModelEntry)
    → (url_issues (url_backends ms []) ≡ []) ↔ HasUniqueUrls (enabled_models ms)
url_issues-url_backends_iff ms =
    let same = ap (All IsUnshared) (url_backends-collect ms []) in
    let (down, up) = url_issues_iff (url_backends ms []) in
    (
      (λ e. collect_only (enabled_models ms) [] (subst (λ P. P) same (down e))),
      (λ h. up (subst (λ P. P) (sym same) (collect_lem (enabled_models ms) [] h tt))),
    )
