-- ===== src/Session/Latest.antt =====
-- The queue of src/websocket_session.cpp while a write goes on.
use streaming_server.Base.{
  ℕ, suc, ◌+◌, ◌≤◌, ◌≡◌, refl, sym, ap, ◌∙◌, true, false, List, [], ◌∷◌, ◌++◌, append_assoc,
  append-nil, map, length, length-append, inl, inr, arith, leb, Bool-cases, if◌then◌else◌,
}
use streaming_server.Text.{Bytes}
use streaming_server.Session.State.{WebSocketSession, max_queue_size}
use streaming_server.Session.Queue.{enqueue, posted, run, pop_front}

-- The last `n` items of a list, or all of a shorter one.
pub keep_last {ℓ} : {A : Type ℓ} → ℕ → List A → List A
keep_last n [] = []
keep_last n (x ∷ xs) = if leb n (length xs) then keep_last n xs else x ∷ xs

keep_last-keep_last {ℓ} :
    {A : Type ℓ} (n : ℕ) (xs ys : List A)
    → keep_last n (keep_last n xs ++ ys) ≡ keep_last n (xs ++ ys)
unfolding keep_last
keep_last-keep_last n [] ys = refl
keep_last-keep_last n (x ∷ xs) ys = elim (Bool-cases (leb n (length xs))) [
  | inl long ↦
      let more : leb n (length (xs ++ ys)) ≡ true = ground (arith, length-append xs ys) in
      rw (long, more) (keep_last-keep_last n xs ys)
  | inr short ↦ rw short
]

keep_last_short {ℓ} : {A : Type ℓ} (n : ℕ) (xs : List A) → length xs ≤ n → keep_last n xs ≡ xs
unfolding keep_last
keep_last_short n [] h = refl
keep_last_short n (x ∷ xs) h = let e : leb n (length xs) ≡ false = ground arith in rw e

keep_last_over :
    (q : List Bytes) (frame : Bytes)
    → length q ≤ max_queue_size
    → (if leb max_queue_size (length q) then pop_front q else q) ++ frame ∷ []
      ≡ keep_last max_queue_size (q ++ frame ∷ [])
keep_last_over [] frame h = sym (keep_last_short max_queue_size (frame ∷ []) (omega arith))
keep_last_over (x ∷ q) frame h =
    let size : length (q ++ frame ∷ []) ≡ suc (length q) =
      omega (arith, length-append q (frame ∷ [])) in
    elim (Bool-cases (leb max_queue_size (suc (length q)))) [
      | inl full ↦
          unfold keep_last in
          rw (size, full) (sym (keep_last_short max_queue_size (q ++ frame ∷ []) (omega arith)))
      | inr room ↦ unfold keep_last in rw (size, room)
    ]

pub enqueue-eq :
    (frame : Bytes) (s : WebSocketSession)
    → s.is_open ≡ true
    → (enqueue frame s).write_queue
      ≡ (if leb max_queue_size (length s.write_queue)
          then pop_front s.write_queue
          else s.write_queue)
        ++ frame ∷ []
unfolding enqueue
enqueue-eq frame s h = ground arith

enqueue-keeps_open : (frame : Bytes) (s : WebSocketSession) → (enqueue frame s).is_open ≡ s.is_open
unfolding enqueue
enqueue-keeps_open frame s = ground arith

length-keep_last-le {ℓ} : {A : Type ℓ} (n : ℕ) (xs : List A) → length (keep_last n xs) ≤ n + 0
unfolding keep_last
length-keep_last-le n [] = omega arith
length-keep_last-le n (x ∷ xs) = ground (arith, length-keep_last-le n xs)

-- When frames are sent faster than the client takes them, an open session's queue is the latest
-- ten of what it held and what was sent since, in order.
pub queue_keeps_latest :
    (frames : List Bytes) (s : WebSocketSession)
    → s.is_open ≡ true
    → length s.write_queue ≤ max_queue_size
    → (run s (map posted frames)).write_queue ≡ keep_last max_queue_size (s.write_queue ++ frames)
unfolding run
queue_keeps_latest [] s h b = rw append-nil (sym (keep_last_short max_queue_size s.write_queue b))
queue_keeps_latest (frame ∷ frames) s h b =
    let s' = enqueue frame s in
    let q : s'.write_queue ≡ keep_last max_queue_size (s.write_queue ++ frame ∷ []) =
      enqueue-eq frame s h ∙ keep_last_over s.write_queue frame b in
    queue_keeps_latest frames s' (enqueue-keeps_open frame s ∙ h)
      (rw q (omega (arith, length-keep_last-le max_queue_size (s.write_queue ++ frame ∷ []))))
    ∙ ap (λ (xs : List Bytes). keep_last max_queue_size (xs ++ frames)) q
    ∙ keep_last-keep_last max_queue_size (s.write_queue ++ frame ∷ []) frames
    ∙ ap (keep_last max_queue_size) (append_assoc s.write_queue (frame ∷ []) frames)
