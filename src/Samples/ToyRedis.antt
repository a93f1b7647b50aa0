-- ===== src/Samples/ToyRedis.antt =====
-- Redis as a function from keys to entries.
use open_profile_be.Prelude.{
  Bool, Option, String, ap, arith, false, if◌then◌else◌, is_some, none, not, refl, some, true, ℕ,
  ◌*◌, ◌+◌, ◌==◌, ◌≡◌,
}
use open_profile_be.Samples.Encoding.{unary}
use open_profile_be.Services.Redis.{
  RedisClient, RedisEntry, after_incr, counted, counter, incremented, live, text, text_entry,
  with_expiry,
}

abbrev pub Entries : Type 0
Entries = String → Option RedisEntry

abbrev pub write : String → Option RedisEntry → Entries → Entries
write k o s j = if k == j then o else s j

abbrev pub shown : Option RedisEntry → Option String
shown none = none
shown (some e) = elim e.value [ text s ↦ some s | counter n ↦ some (unary n) ]

abbrev pub set_nx_entries : Entries → ℕ → String → String → Option ℕ → Bool × Entries
set_nx_entries s now k v t =
    if is_some (live now (s k)) then (false, s) else (true, write k (text_entry v t) s)

pub set_nx_entries-reply :
    (s : Entries) (now : ℕ) (k v : String) (t : Option ℕ)
    → (set_nx_entries s now k v t).0 ≡ not (is_some (live now (s k)))
set_nx_entries-reply s now k v t = ground arith

pub set_nx_entries-entry :
    (s : Entries) (now : ℕ) (k v : String) (t : Option ℕ) (j : String)
    → (set_nx_entries s now k v t).1 j
      ≡ (if is_some (live now (s k)) then s j else if k == j then text_entry v t else s j)
set_nx_entries-entry s now k v t j = ground arith

abbrev pub toy_redis : RedisClient
toy_redis = record {
  Store = Entries;
  entry = λ s k. s k;
  decimal = unary;
  get = λ s now k. shown (live now (s k));
  set = λ s k v t. write k (text_entry v t) s;
  set_nx = set_nx_entries;
  incr =
      λ s now k. (incremented (counted (live now (s k))), write k (after_incr (live now (s k))) s);
  expire = λ s now k ttl. write k (with_expiry (now + ttl * 1000) (live now (s k))) s;
  del = λ s k. write k none s;
  get_text = λ s now k v t e. ap shown e;
  get_counter = λ s now k n t e. ap shown e;
  get_missing = λ s now k e. ap shown e;
  entry-set = λ s k v t j. refl;
  set_nx_reply = set_nx_entries-reply;
  entry-set_nx = set_nx_entries-entry;
  incr_reply = λ s now k. refl;
  entry-incr = λ s now k j. refl;
  entry-expire = λ s now k ttl j. refl;
  entry-del = λ s k j. refl;
}
