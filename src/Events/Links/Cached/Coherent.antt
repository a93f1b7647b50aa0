-- ===== src/Events/Links/Cached/Coherent.antt =====
-- The worlds whose cached set of links is that of the database, and the commands of Redis that keep
-- them so.
use open_profile_be.Entities.Pages.{Profile}
use open_profile_be.Events.Links.{chars, links_entry, links_key, links_lock_key, resolve_from_db}
use open_profile_be.Exec.{Result, continue, err, ok}
use open_profile_be.Prelude.{
  Bool, Option, String, ap, arith, eq_iff, eq_refl, false, if◌then◌else◌, key, none, refl, some,
  subst, sym, true, truthy, ℕ, ◌+◌, ◌==◌, ◌∙◌, ◌≡◌,
}
use open_profile_be.Redis.Laws.{peek}
use open_profile_be.Services.{Services}
use open_profile_be.Services.Redis.{
  RedisEntry, RedisValue, counter, live, text, text_entry, not_expired,
}
use open_profile_be.World.{App, World}
use open_profile_be.Redis

chars-key : (p r : String) → chars (key p r) ≡ chars p + chars r
chars-key String.[] r = omega arith
chars-key (String.◌∷◌ c p) r = ground (arith, chars-key p r)

keys_apart : (name : String) → (key "profile:links:lock:" name == key "profile:links:" name) ≡ false
keys_apart name =
    let t = key "profile:links:lock:" name in
    let u = key "profile:links:" name in
    ground (
      arith,
      eq_iff t u,
      λ (e : t ≡ u). ap chars e,
      chars-key "profile:links:lock:" name,
      chars-key "profile:links:" name,
    )

module _ (x : Services) (name : String) (found : Option Profile) where
  abbrev IsRightValue : RedisValue → Type 0
  IsRightValue (text v) = x.tracking.parse_links v ≡ some (links_entry x found)
  IsRightValue (counter n) = true ≡ false

  abbrev pub IsRightEntry : Option RedisEntry → Type 0
  IsRightEntry none = Unit {0}
  IsRightEntry (some e) = IsRightValue e.value

  -- The database has the profile, and what is cached, if anything, is its links.
  abbrev pub IsCoherent : World x → Type 0
  IsCoherent w = (resolve_from_db x name w ≡ found) × IsRightEntry (peek x w (links_key x name))

  abbrev pub IsRead : Option String → Type 0
  IsRead none = Unit {0}
  IsRead (some v) = x.tracking.parse_links v ≡ some (links_entry x found)

  abbrev Yields : {A : Type 0} → (A → Type 0) → Result A → Type 0
  Yields P (ok a) = P a
  Yields P (err e) = Unit {0}

  -- The world is coherent, and what is returned, if anything, meets the predicate.
  abbrev pub After : {A : Type 0} → (A → Type 0) → Result A × World x → Type 0
  After P r = IsCoherent r.1 × Yields P r.0

  pub then-After :
      {A B : Type 0} (P : A → Type 0) (Q : B → Type 0) (r : Result A × World x) (f : A → App x B)
      → After P r
      → ((a : A) (v : World x) → P a → IsCoherent v → After Q (f a v))
      → After Q (continue r.0 f r.1)
  then-After P Q (ok a, v) f h k = k a v h.1 h.0
  then-After P Q (err e, v) f h k = (h.0, tt)

  command-After :
      {A : Type 0} (P : A → Type 0) (b : Bool) (r : Result A × x.redis.Store) (w : World x)
      → IsCoherent w
      → IsCoherent (record w { redis = r.1 })
      → Yields P r.0
      → After P (
          if◌then◌else◌ {A = Result A × World x} b
            (r.0, record w { redis = r.1 })
            (err Redis.redis_error, w))
  command-After P true r w h later y = (later, y)
  command-After P false r w h later y = (h, tt)

  IsRead-value :
      (w : World x) (k : String) (v : RedisValue) (t : Option ℕ)
      → peek x w k ≡ some (record { value = v; expires = t })
      → IsRightValue v
      → IsRead (x.redis.get w.redis w.now k)
  IsRead-value w k (text v) t p h = subst IsRead (sym (x.redis.get_text w.redis w.now k v t p)) h
  IsRead-value w k (counter n) t p h = cc

  IsRead-entry :
      (w : World x) (k : String) (e : Option RedisEntry)
      → peek x w k ≡ e
      → IsRightEntry e
      → IsRead (x.redis.get w.redis w.now k)
  IsRead-entry w k none p h = subst IsRead (sym (x.redis.get_missing w.redis w.now k p)) tt
  IsRead-entry w k (some e) p h = IsRead-value w k e.value e.expires p h

  pub truthy-IsRead : (o : Option String) → IsRead o → IsRead (truthy o)
  truthy-IsRead none h = tt
  truthy-IsRead (some s) h = when_read (s == "") h
    where
      when_read : (b : Bool) → IsRead (some s) → IsRead (if b then none else some s)
      when_read true h = tt
      when_read false h = h

  live-IsRightEntry :
      (now : ℕ) (v : String) (t : Option ℕ)
      → x.tracking.parse_links v ≡ some (links_entry x found)
      → IsRightEntry (live now (text_entry v t))
  live-IsRightEntry now v t h = when_live (not_expired now t)
    where
      when_live : (b : Bool) → IsRightEntry (if b then text_entry v t else none)
      when_live true = h
      when_live false = tt

  -- A change of another key keeps a world coherent.
  other_entry :
      (w : World x) (s : x.redis.Store)
      → x.redis.entry s (links_key x name) ≡ x.redis.entry w.redis (links_key x name)
      → IsCoherent w
      → IsCoherent (record w { redis = s })
  other_entry w s e h = (h.0, subst (λ o. IsRightEntry (live w.now o)) (sym e) h.1)

  pub get-After : (w : World x) → IsCoherent w → After IsRead (Redis.get x (links_key x name) w)
  unfolding Redis.get
  get-After w h =
      command-After IsRead w.redis_up (ok (x.redis.get w.redis w.now (links_key x name)), w.redis) w
        h h (IsRead-entry w (links_key x name) (peek x w (links_key x name)) refl h.1)

  pub set-After :
      (w : World x) (v : String) (ttl : ℕ)
      → x.tracking.parse_links v ≡ some (links_entry x found)
      → IsCoherent w
      → After (λ _. Unit {0}) (Redis.set x (links_key x name) v ttl w)
  unfolding Redis.set
  set-After w v ttl right h =
      let k = links_key x name in
      let t = Redis.expiry x w ttl in
      let entry =
        x.redis.entry-set w.redis k v t k
        ∙ ap (λ b. if b then text_entry v t else x.redis.entry w.redis k) (eq_refl k) in
      command-After (λ _. Unit {0}) w.redis_up (ok true, x.redis.set w.redis k v t) w h
        (
          h.0,
          subst (λ o. IsRightEntry (live w.now o)) (sym entry) (live-IsRightEntry w.now v t right),
        )
        tt

  pub set_nx-After :
      (w : World x) (v : String) (ttl : ℕ)
      → IsCoherent w
      → After (λ _. Unit {0}) (Redis.set_nx x (links_lock_key x name) v ttl w)
  unfolding Redis.set_nx
  set_nx-After w v ttl h =
      let t = Redis.expiry x w ttl in
      let r = x.redis.set_nx w.redis w.now (links_lock_key x name) v t in
      command-After (λ _. Unit {0}) w.redis_up (ok r.0, r.1) w h
        (other_entry w r.1
          (ground (
            arith,
            x.redis.entry-set_nx w.redis w.now (links_lock_key x name) v t (links_key x name),
            keys_apart name,
          ))
          h)
        tt

  pub del-After :
      (w : World x) → IsCoherent w → After (λ _. Unit {0}) (Redis.del x (links_lock_key x name) w)
  unfolding Redis.del
  del-After w h =
      let s = x.redis.del w.redis (links_lock_key x name) in
      command-After (λ _. Unit {0}) w.redis_up (ok tt, s) w h
        (other_entry w s
          (ground (
            arith,
            x.redis.entry-del w.redis (links_lock_key x name) (links_key x name),
            keys_apart name,
          ))
          h)
        tt
