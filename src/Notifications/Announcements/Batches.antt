-- ===== src/Notifications/Announcements/Batches.antt =====
-- The batches of a broadcast hold every account.
use open_profile_be.Entities.{User}
use open_profile_be.Entities.Notifications.{FanoutBatch}
use open_profile_be.Exec.{Result, continue, err, handle, infrastructure, ok, pure, throw}
use open_profile_be.Notifications.{dropped, taken}
use open_profile_be.Notifications.Announcements.{
  add_batch, batch_of, broadcast, broadcast_failed, fan_out, fanout_batch_size, send_page,
  users_by_id, with_batch,
}
use open_profile_be.Prelude.{
  Bool, List, String, [], ap, arith, count_where, keep, if◌then◌else◌, length, map, refl, subst,
  suc, sym, true, zero, ℕ, ◌+◌, ◌++◌, ◌<◌, ◌≤◌, ◌∙◌, ◌∷◌, ◌≡◌,
}
use open_profile_be.Services.{Services}
use open_profile_be.World.{World}

dropped-nil : {A : Type 0} (n : ℕ) → dropped {A = A} n [] ≡ []
dropped-nil zero = refl
dropped-nil (suc n) = refl

suc_sum : (a b : ℕ) → suc a + b ≡ suc (a + b)
suc_sum a b = omega arith

dropped_sum : {A : Type 0} (a b : ℕ) (xs : List A) → dropped (a + b) xs ≡ dropped b (dropped a xs)
dropped_sum zero b xs = ap (λ n. dropped n xs) (omega arith)
dropped_sum (suc a) b [] = dropped-nil (suc a + b) ∙ sym (dropped-nil b)
dropped_sum (suc a) b (y ∷ xs) = ap (λ n. dropped n (y ∷ xs)) (suc_sum a b) ∙ dropped_sum a b xs

length-dropped : {A : Type 0} (n : ℕ) (xs : List A) → length (dropped n xs) ≤ length xs
length-dropped zero xs = omega arith
length-dropped (suc n) [] = omega arith
length-dropped (suc n) (y ∷ xs) = ground (arith, length-dropped n xs)

abbrev ids : List User → List String
ids users = map (λ (u : User). u.id) users

ids-split : (n : ℕ) (users : List User) → ids (taken n users) ++ ids (dropped n users) ≡ ids users
ids-split zero users = refl
ids-split (suc n) [] = refl
ids-split (suc n) (u ∷ users) = ap (◌∷◌ u.id) (ids-split n users)

append_nil : {A : Type 0} (xs : List A) → xs ++ [] ≡ xs
append_nil [] = refl
append_nil (y ∷ xs) = ap (◌∷◌ y) (append_nil xs)

append_assoc : {A : Type 0} (xs ys zs : List A) → (xs ++ ys) ++ zs ≡ xs ++ (ys ++ zs)
append_assoc [] ys zs = refl
append_assoc (y ∷ xs) ys zs = ap (◌∷◌ y) (append_assoc xs ys zs)

-- The ids of all batches, in their order.
abbrev pub batched : List FanoutBatch → List String
batched [] = []
batched (b ∷ batches) = b.user_ids ++ batched batches

batched-last :
    (batches : List FanoutBatch) (b : FanoutBatch)
    → batched (batches ++ b ∷ []) ≡ batched batches ++ b.user_ids
batched-last [] b = append_nil b.user_ids
batched-last (c ∷ batches) b =
    ap (◌++◌ c.user_ids) (batched-last batches b)
    ∙ sym (append_assoc c.user_ids (batched batches) b.user_ids)

keep-all : {A : Type 0} (xs : List A) → keep (λ _. true) xs ≡ xs
keep-all [] = refl
keep-all (y ∷ xs) = ap (◌∷◌ y) (keep-all xs)

module _ (x : Services) where
  abbrev all_batches : World x → List String
  all_batches w = batched w.tracking.batches

  add_batch_lem :
      (b : FanoutBatch) (w : World x)
      → w.queue_up ≡ true
      → add_batch x b w ≡ (ok tt, with_batch x b w)
  add_batch_lem b w up =
      ap
        (λ (q : Bool).
          if◌then◌else◌ {A = Result (Unit {0}) × World x} q (ok tt, with_batch x b w)
            (err (infrastructure "queue unavailable"), w))
        up

  module _ (id title body : String) (m : ℕ) where
    -- Fuel for one round more than there are accounts left sends them all.
    fan_out_lem :
        (fuel offset : ℕ) (w : World x) (users : List User)
        → w.queue_up ≡ true
        → dropped offset (users_by_id x w) ≡ users
        → length users < fuel
        → ((fan_out x id title body (suc m) fuel offset w).0 ≡ ok tt)
          × (all_batches (fan_out x id title body (suc m) fuel offset w).1
              ≡ all_batches w ++ ids users)
    unfolding fan_out
    fan_out_lem zero offset w users up e enough = absurd (ground (arith, enough))
    fan_out_lem (suc fuel) offset w [] up e enough =
        let rest = fan_out x id title body (suc m) fuel (offset + suc m) in
        let Sent : (List User → Type 0) = (λ page.
          ((send_page x id title body rest page w).0 ≡ ok tt)
          × (all_batches (send_page x id title body rest page w).1 ≡ all_batches w ++ [])) in
        subst Sent (sym (ap (taken (suc m)) e)) (refl, sym (append_nil (all_batches w)))
    fan_out_lem (suc fuel) offset w (u ∷ users) up e enough =
        let rest = fan_out x id title body (suc m) fuel (offset + suc m) in
        let b = batch_of x id title body (taken (suc m) (u ∷ users)) in
        let later =
          fan_out_lem fuel (offset + suc m) (with_batch x b w) (dropped m users) up
            (dropped_sum offset (suc m) (users_by_id x w) ∙ ap (dropped (suc m)) e)
            (ground (arith, enough, length-dropped m users)) in
        let End : (Result (Unit {0}) × World x → Type 0) =
          (λ r. (r.0 ≡ ok tt) × (all_batches r.1 ≡ all_batches w ++ ids (u ∷ users))) in
        let sent =
          ap (λ page. send_page x id title body rest page w) (ap (taken (suc m)) e)
          ∙ ap (λ (r : Result (Unit {0}) × World x). continue r.0 (λ _. rest) r.1)
              (add_batch_lem b w up) in
        subst End (sym sent) (
          later.0,
          later.1
              ∙ ap (λ ids_before. ids_before ++ ids (dropped m users))
                  (batched-last w.tracking.batches b)
              ∙ append_assoc (all_batches w) b.user_ids (ids (dropped m users))
              ∙ ap (◌++◌ (all_batches w)) (ids-split (suc m) (u ∷ users)),
        )

-- While the queue answers, a broadcast ends, and the batches that it adds hold the ids of all
-- accounts, in the order of their ids and each as often as the table has it.
pub broadcast-batches :
    (x : Services) (title body : String) (w : World x)
    → w.queue_up ≡ true
    → ((broadcast x title body w).0 ≡ ok (x.crypto.uuid w.drawn))
      × (batched (broadcast x title body w).1.tracking.batches
          ≡ batched w.tracking.batches ++ map (λ (u : User). u.id) (users_by_id x w))
      × ((q : User → Bool) → count_where q (users_by_id x w) ≡ count_where q (x.users.rows w.users))
unfolding broadcast
broadcast-batches x title body w up =
    let v = record w { drawn = suc w.drawn } in
    let id = x.crypto.uuid w.drawn in
    let sent =
      fan_out_lem x id title body 499 (suc (length (users_by_id x w))) 0 v (users_by_id x w) up refl
        (omega arith) in
    let ends = fan_out x id title body fanout_batch_size (suc (length (users_by_id x w))) 0 v in
    let finish : (Result (Unit {0}) → Result String × World x) = (λ r.
      continue (handle {S = World x} r (λ _. throw broadcast_failed) ends.1).0 (λ _. pure id)
        (handle {S = World x} r (λ _. throw broadcast_failed) ends.1).1) in
    (
      ap (λ r. (finish r).0) sent.0,
      ap (λ r. batched (finish r).1.tracking.batches) sent.0 ∙ sent.1,
      λ q.
          x.users.find_ordered_count (λ u. x.crypto.uuid_order u.id) (λ _. true) q w.users
          ∙ ap (count_where q) (keep-all (x.users.rows w.users)),
    )
