-- ===== src/World/Tasks.antt =====
-- The clients and the posted tasks of a run of src/main.cpp: what is found, picked and changed.
use mathlib.Core.Option
use streaming_server.Base.{
  length, ℕ, suc, ◌≡◌, refl, ap, ◌∙◌, inl, inr, Bool, true, false, List, [], ◌∷◌, ◌++◌, map, some,
  ◌==◌, ==_iff, arith, Bool-cases,
}
use streaming_server.Text.{Bytes}
use streaming_server.Session.Commands.{Effect, sends}
use streaming_server.Streaming.Broadcast.{occurs, keep_if}
use streaming_server.World.{Client, has_id, find_client, change_client, alive, pick, as_tasks}

pub found_is_alive :
    (id : ℕ) (ks : List Client) (k : Client) → find_client id ks ≡ some k → alive ks id ≡ true
unfolding find_client alive
found_is_alive id [] k e = ground (arith, e)
found_is_alive id (k' ∷ ks) k e = elim (Bool-cases (has_id id k')) [
  | inl here ↦ rw here refl
  | inr later ↦ rw later (found_is_alive id ks k (rw later at e))
]

pub occurs-keep_if :
    (test : ℕ → Bool) (id : ℕ) (vs : List ℕ)
    → test id ≡ true
    → occurs id vs ≡ true
    → occurs id (keep_if test vs) ≡ true
unfolding keep_if
occurs-keep_if test id [] kept h = h
occurs-keep_if test id (v ∷ vs) kept h = elim (Bool-cases (v == id)) [
  | inl here ↦
      let passes : test v ≡ true = ap test ((==_iff v id).0 here) ∙ kept in rw (passes, here) refl
  | inr later ↦ elim (Bool-cases (test v)) [
    | inl stays ↦ rw (stays, later) (occurs-keep_if test id vs kept (rw later at h))
    | inr goes ↦ rw goes (occurs-keep_if test id vs kept (rw later at h))
  ]
]

-- A task that is among those posted can be picked.
unfoldable pub Pickable : ℕ → Bytes → List Effect → Type 0
Pickable id text ts = (k : ℕ) × (us : List Effect) × (pick k ts ≡ some (sends id text, us))

pick_later :
    (id : ℕ) (text : Bytes) (t : Effect) (ts : List Effect)
    → Pickable id text ts
    → Pickable id text (t ∷ ts)
unfolding Pickable pick
pick_later id text t ts (k, us, e) = (suc k, t ∷ us, rw e refl)

false_is_not_true : ¬ (false ≡ true)
false_is_not_true h = ground (arith, h)

pub pick-sends :
    (id : ℕ) (text : Bytes) (vs : List ℕ)
    → occurs id vs ≡ true
    → Pickable id text (as_tasks (map (λ v. (v, text)) vs))
unfolding Pickable pick
pick-sends id text [] h = absurd (false_is_not_true h)
pick-sends id text (v ∷ vs) h = elim (Bool-cases (v == id)) [
  | inl here ↦ (
    0,
    as_tasks (map (λ w. (w, text)) vs),
    ap (λ n. some (sends n text, as_tasks (map (λ w. (w, text)) vs))) ((==_iff v id).0 here),
  )
  | inr later ↦ pick_later id text (sends v text) _ (pick-sends id text vs (rw later at h))
]

pub pick-append :
    (id : ℕ) (text : Bytes) (ts us : List Effect)
    → Pickable id text us
    → Pickable id text (ts ++ us)
pick-append id text [] us p = p
pick-append id text (t ∷ ts) us p = pick_later id text t (ts ++ us) (pick-append id text ts us p)

pub change_client-find :
    (id : ℕ) (f : Client → Client) (ks : List Client) (k : Client)
    → ((k' : Client) → has_id id k' ≡ true → has_id id (f k') ≡ true)
    → find_client id ks ≡ some k
    → find_client id (change_client id f ks) ≡ some (f k)
unfolding find_client change_client
change_client-find id f [] k keeps e = ground (arith, e)
change_client-find id f (k' ∷ ks) k keeps e = elim (Bool-cases (has_id id k')) [
  | inl here ↦
      let still : has_id id (f k') ≡ true = keeps k' here in
      rw (here, still) (ap (Option.map f) (rw here at e))
  | inr later ↦ rw (later, later) (change_client-find id f ks k keeps (rw later at e))
]

-- The first of the tasks that are posted behind others.
pub pick-length :
    (ts us : List Effect) (t : Effect) → pick (length ts) (ts ++ t ∷ us) ≡ some (t, ts ++ us)
unfolding pick
pick-length [] us t = refl
pick-length (x ∷ ts) us t = rw (pick-length ts us t) refl
