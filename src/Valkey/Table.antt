-- ===== src/Valkey/Table.antt =====
-- A table of entries meets what is asked of the server, so the assumptions can hold.
use local_llms.Base.{
  ◌+◌, ◌≡◌, refl, Bool, true, false, Option, none, some, Text, text_eq, if◌then◌else◌,
}
use local_llms.Valkey.{Valkey, Value, Entry, live, bump, incremented, expiring}

abbrev pub Table : Type 0
Table = Text → Option Entry

abbrev pub write : Text → Option Entry → Table → Table
write k e s j = if text_eq k j then e else s j

abbrev pub write_if_free : Option Value → Text → Entry → Table → Table × Bool
write_if_free none k e s = (write k (some e) s, true)
write_if_free (some _) k e s = (s, false)

pub write_if_free_lem :
    (o : Option Value) (k : Text) (e : Entry) (s : Table)
    → write_if_free o k e s ≡ (
        let free : Table × Bool = (write k (some e) s, true) in
        elim o [ none ↦ free | some _ ↦ (s, false) ])
write_if_free_lem none k e s = refl
write_if_free_lem (some _) k e s = refl

abbrev pub table : Valkey
table = record {
  Store = Table;
  entry = λ s k. s k;
  get = λ t k s. live t (s k);
  set_px = λ t k v ttl s. write k (some (v, some (t + ttl))) s;
  set_nx_px = λ t k v ttl s. write_if_free (live t (s k)) k (v, some (t + ttl)) s;
  del = λ k s. write k none s;
  incr = λ t k s. (write k (incremented t (s k)) s, bump (live t (s k)));
  pexpire = λ t k ttl s. write k (expiring t ttl (s k)) s;
  get_lem = λ t k s. refl;
  entry-set_px = λ t k v ttl s j. refl;
  set_nx_px_lem = λ t k v ttl s. write_if_free_lem (live t (s k)) k (v, some (t + ttl)) s;
  entry-del = λ k s j. refl;
  incr_reply = λ t k s. refl;
  entry-incr = λ t k s j. refl;
  entry-pexpire = λ t k ttl s j. refl;
}
