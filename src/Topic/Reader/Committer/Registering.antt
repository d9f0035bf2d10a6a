-- ===== src/Topic/Reader/Committer/Registering.antt =====
-- The calls in `waitCommitAck` and the waiters that the committer has for them.
use mathlib.Core.Path.{subst}
use mathlib.Core.List.{Memᴰ}
use ydb_go_sdk.Base.{
  All, All-imp, Bool, Bool-cases, List, Option, Option-cases, [], ap, false, inl, inr, map, none,
  refl, some, sym, true, ℕ, ◌++◌, ◌==◌, ◌∙◌, ◌∷◌, ◌≡◌,
}
use ydb_go_sdk.Base.Word.{incr}
use ydb_go_sdk.Topic.Reader.CommitRange.{CommitRange, SessionRef}
use ydb_go_sdk.Topic.Reader.Committer.{
  CommitWaiter, Committer, add_waiter, append_commit, check_condition, is_sync, new_commit_waiter,
  notify_waiters, push_commit, remove_from,
}
use ydb_go_sdk.Topic.Reader.Committer.Acks.{Key, add_call, end_call, key_of}

-- The committer has a waiter for the call.
abbrev pub IsRegistered : List CommitWaiter → Key → Type 0
IsRegistered ws k = Memᴰ k (map key_of ws)

-- A call stays registered when another waiter is added, when the waiters are notified, and when
-- another call ends.
map_key-append :
    (xs ys : List CommitWaiter) → map key_of (xs ++ ys) ≡ map key_of xs ++ map key_of ys
map_key-append [] ys = refl
map_key-append (x ∷ xs) ys = ap (λ z. key_of x ∷ z) (map_key-append xs ys)

Memᴰ-left : {A : Type 0} {x : A} (xs ys : List A) → Memᴰ x xs → Memᴰ x (xs ++ ys)
Memᴰ-left [] ys m = elim m [ ]
Memᴰ-left (x ∷ xs) ys (Memᴰ.head e) = Memᴰ.head e
Memᴰ-left (x ∷ xs) ys (Memᴰ.tail m) = Memᴰ.tail (Memᴰ-left xs ys m)

Memᴰ-last : {A : Type 0} (x : A) (xs : List A) → Memᴰ x (xs ++ x ∷ [])
Memᴰ-last x [] = Memᴰ.head refl
Memᴰ-last x (y ∷ xs) = Memᴰ.tail (Memᴰ-last x xs)

append-IsRegistered :
    (ws : List CommitWaiter) (w : CommitWaiter) (k : Key)
    → IsRegistered ws k
    → IsRegistered (ws ++ w ∷ []) k
append-IsRegistered ws w k m =
    subst (Memᴰ k) (sym (map_key-append ws (w ∷ []))) (Memᴰ-left (map key_of ws) _ m)

last-IsRegistered :
    (ws : List CommitWaiter) (w : CommitWaiter) → IsRegistered (ws ++ w ∷ []) (key_of w)
last-IsRegistered ws w =
    subst (Memᴰ (key_of w)) (sym (map_key-append ws (w ∷ [])))
      (Memᴰ-last (key_of w) (map key_of ws))

pub notify_waiters-keys :
    (session : Option SessionRef) (offset : ℕ) (ws : List CommitWaiter)
    → map key_of (notify_waiters session offset ws) ≡ map key_of ws
unfolding notify_waiters
notify_waiters-keys session offset [] = refl
notify_waiters-keys session offset (w ∷ ws) = elim (Bool-cases (check_condition w session offset)) [
  | inl e ↦ rw e (ap (λ z. key_of w ∷ z) (notify_waiters-keys session offset ws))
  | inr e ↦ rw e (ap (λ z. key_of w ∷ z) (notify_waiters-keys session offset ws))
]

remove_from-IsRegistered :
    (id : ℕ) (ws : List CommitWaiter) (k : Key)
    → k.id == id ≡ false
    → IsRegistered ws k
    → IsRegistered (remove_from id ws) k
unfolding remove_from
remove_from-IsRegistered id [] k n m = elim m [ ]
remove_from-IsRegistered id (w ∷ ws) k n (Memᴰ.head e) =
    let same : k.id ≡ w.id = ap (λ z. z.id) e in
    let other : w.id == id ≡ false = sym (ap (λ i. i == id) same) ∙ n in rw other (Memᴰ.head e)
remove_from-IsRegistered id (w ∷ ws) k n (Memᴰ.tail m) = elim (Bool-cases (w.id == id)) [
  | inl e ↦ rw e (remove_from-IsRegistered id ws k n m)
  | inr e ↦ rw e (Memᴰ.tail (remove_from-IsRegistered id ws k n m))
]

pub end_call-All : (P : Key → Type 0) (id : ℕ) (ks : List Key) → All P ks → All P (end_call id ks)
unfolding end_call
end_call-All P id [] h = tt
end_call-All P id (k ∷ ks) (h, hs) = elim (Bool-cases (k.id == id)) [
  | inl e ↦ rw e (end_call-All P id ks hs)
  | inr e ↦ rw e (h, end_call-All P id ks hs)
]

pub end_call-Memᴰ : (id : ℕ) (ks : List Key) (k : Key) → Memᴰ k (end_call id ks) → Memᴰ k ks
unfolding end_call
end_call-Memᴰ id [] k m = elim m [ ]
end_call-Memᴰ id (x ∷ ks) k m = elim (Bool-cases (x.id == id)) [
  | inl e ↦ Memᴰ.tail (end_call-Memᴰ id ks k (rw e at m))
  | inr e ↦
      let n : Memᴰ k (x ∷ end_call id ks) = rw e at m in
      elim n [ Memᴰ.head f ↦ Memᴰ.head f | Memᴰ.tail g ↦ Memᴰ.tail (end_call-Memᴰ id ks k g) ]
]

pub end_call-IsRegistered :
    (id : ℕ) (ws : List CommitWaiter) (ks : List Key)
    → All (IsRegistered ws) ks
    → All (IsRegistered (remove_from id ws)) (end_call id ks)
unfolding end_call
end_call-IsRegistered id ws [] h = tt
end_call-IsRegistered id ws (k ∷ ks) (h, hs) = elim (Bool-cases (k.id == id)) [
  | inl e ↦ rw e (end_call-IsRegistered id ws ks hs)
  | inr e ↦ rw e (remove_from-IsRegistered id ws k e h, end_call-IsRegistered id ws ks hs)
]

-- A call that is accepted in the mode that waits is registered with its own waiter.
append_commit-registers :
    {E : Type 0} (w : CommitWaiter) (r : CommitRange) (c : Committer E) (ks : List Key)
    → All (IsRegistered c.waiters) ks
    → let (e, d) = append_commit w r c in
      All (IsRegistered d.waiters) ks
      × All (IsRegistered d.waiters) (add_call e (is_sync c.mode) w ks)
unfolding append_commit add_waiter
append_commit-registers w r c ks h = elim (Option-cases c.closed) [
  | inl n ↦ elim (Bool-cases (is_sync c.mode)) [
    | inl y ↦
        let hs = All-imp ks (append-IsRegistered c.waiters w) h in
        rw (n, y) (hs, (last-IsRegistered c.waiters w, hs))
    | inr y ↦ rw (n, y) (h, h)
  ]
  | inr (x, n) ↦ rw n (h, h)
]

pub push_commit-registers :
    {E : Type 0} (r : CommitRange) (c : Committer E) (bs ks : List Key)
    → All (IsRegistered c.waiters) bs
    → All (IsRegistered c.waiters) ks
    → let (x, d) = push_commit r c in
      All (IsRegistered d.waiters) bs
      × All (IsRegistered d.waiters) (add_call x.0 (is_sync c.mode) x.1 ks)
unfolding push_commit
push_commit-registers r c bs ks h k =
    let w = new_commit_waiter (incr c.last_id) r.session r.end in
    let c' = record c { last_id = incr c.last_id } in
    ((append_commit-registers w r c' bs h).0, (append_commit-registers w r c' ks k).1)

-- The number that the next waiter takes is not below those given.
pub push_commit-id :
    {E : Type 0} (r : CommitRange) (c : Committer E) → (push_commit r c).0.1.id ≡ incr c.last_id
unfolding push_commit new_commit_waiter
push_commit-id r c = refl

pub add_call-All :
    {E : Type 0} (P : Key → Type 0) (o : Option E) (b : Bool) (w : CommitWaiter) (ks : List Key)
    → P (key_of w)
    → All P ks
    → All P (add_call o b w ks)
add_call-All P none true w ks p h = (p, h)
add_call-All P none false w ks p h = h
add_call-All P (some e) b w ks p h = h

pub Memᴰ-All : {A : Type 0} (P : A → Type 0) (xs : List A) (x : A) → All P xs → Memᴰ x xs → P x
Memᴰ-All P [] x h m = elim m [ ]
Memᴰ-All P (y ∷ xs) x (h, hs) (Memᴰ.head e) = subst P (sym e) h
Memᴰ-All P (y ∷ xs) x (h, hs) (Memᴰ.tail m) = Memᴰ-All P xs x hs m
