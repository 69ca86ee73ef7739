-- ===== src/ScopedIds/Tests.antt =====
-- The headers of one request that is stamped and one that is rejected.
use local_llms.Base.{◌≡◌, refl, some, none, [], ◌∷◌, codes}
use local_llms.ScopedIds.{
  extracted, absent, one, many, stamped, rejected, id_re, wc_re, scoped_ids_pre_handler,
  extract_scoped_id,
}
use local_llms.ScopedIds.Laws.{IsHandled, scoped_ids_pre_handler-IsHandled}

scoped_ids_pre_handler-IsHandled_example :
    IsHandled
      (one (codes "acme"))
      (many (codes "a b" ∷ []))
      absent
      (scoped_ids_pre_handler (one (codes "acme")) (many (codes "a b" ∷ [])) absent)
scoped_ids_pre_handler-IsHandled_example =
    scoped_ids_pre_handler-IsHandled (one (codes "acme")) (many (codes "a b" ∷ [])) absent

second_rejected :
    scoped_ids_pre_handler (one (codes "acme")) (many (codes "a b" ∷ [])) absent
    ≡ rejected (codes "X-Project-ID") (codes "a b")
unfolding scoped_ids_pre_handler extract_scoped_id id_re
second_rejected = refl

lowered :
    scoped_ids_pre_handler absent absent (one (codes "Batch"))
    ≡ stamped
        (record { tenant_id = none; project_id = none; workload_class = some (codes "batch") })
unfolding scoped_ids_pre_handler extract_scoped_id extracted wc_re
lowered = refl
