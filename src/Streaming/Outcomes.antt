-- ===== src/Streaming/Outcomes.antt =====
-- What starting and stopping the stream of src/stream_controller.cpp leads to.
use streaming_server.Base.{
  ℕ, ◌+◌, ◌-◌, ◌^◌, ◌<◌, ◌≡◌, refl, inl, inr, Bool, true, false, [], ◌∷◌, ◌++◌, length, arith,
  append-nil, some, Bool-cases, ◌%◌,
}
use streaming_server.Base.Int.{ℤ, pos}
use streaming_server.Outcome.{Exception, Try, ok, throw}
use streaming_server.Text.{Bytes}
use streaming_server.Text.Search.{find_char, find_char_at}
use streaming_server.Text.Slices.{substr_front, substr_back}
use streaming_server.Text.Decimal.{to_string, stoi}
use streaming_server.Text.Decimal.RoundTrip.{stoi-to_string, to_string-Lacks, length-to_string-le}
use streaming_server.Video.{open_camera}
use streaming_server.Streaming.State.{StreamController}
use streaming_server.Streaming.Control.{
  width_text, height_text, number_in, start_body, caught, start_streaming,
}

true_and_false : {b : Bool} → b ≡ true → b ≡ false → ⊥
true_and_false h k = cc

module _ {D : Type 0} (can_open : ℤ → Bool) (camera fps : ℤ) (c : StreamController D) where
  -- The `try` block with its handler.
  abbrev pub attempt : Try ℤ → Try ℤ → Try (Unit {0}) × StreamController D
  attempt width height =
      let (result, c') = start_body can_open camera width height fps c in caught result c'

  attempt_viewers : (width height : Try ℤ) → (attempt width height).1.viewers ≡ c.viewers
  unfolding open_camera
  attempt_viewers (throw e) height = refl
  attempt_viewers (ok w) (throw e) = refl
  attempt_viewers (ok w) (ok h) = ground arith

  attempt_throws :
      (width height : Try ℤ) (e : Exception)
      → (attempt width height).0 ≡ throw e
      → ((attempt width height).1.is_streaming ≡ false) × ((attempt width height).1.loops ≡ c.loops)
  unfolding open_camera
  attempt_throws (throw e') height e h = (refl, refl)
  attempt_throws (ok w) (throw e') e h = (refl, refl)
  attempt_throws (ok w) (ok h) e t = ground arith

  -- The state that a successful start leaves.
  abbrev pub Started : ℤ → ℤ → Try (Unit {0}) × StreamController D → Type 0
  Started w h (result, c') =
      (result ≡ ok tt)
      × (c'.is_streaming ≡ true)
      × (c'.stop_requested ≡ false)
      × (c'.frame_width ≡ w)
      × (c'.frame_height ≡ h)
      × (c'.fps ≡ fps)
      × (c'.loops ≡ c.loops + 1)

  attempt_starts : (w h : ℤ) → can_open camera ≡ true → Started w h (attempt (ok w) (ok h))
  unfolding open_camera
  attempt_starts w h opens = ground arith

  module _ (resolution : Bytes) where
    pub starts_idle :
        c.is_streaming ≡ false
        → start_streaming can_open camera resolution fps c
          ≡ attempt (number_in (width_text resolution)) (number_in (height_text resolution))
    unfolding start_streaming
    starts_idle idle = rw idle

    pub starts_busy :
        c.is_streaming ≡ true → start_streaming can_open camera resolution fps c ≡ (ok tt, c)
    unfolding start_streaming
    starts_busy busy = rw busy

    -- While the stream runs `start_streaming` does nothing. Otherwise, when both parts of the
    -- resolution are numbers and the camera opens, it succeeds: one capture loop is added, the
    -- stream runs with the numbers and no stop is requested. When it throws, the stream does not
    -- run and no loop is added. The viewers stay as they are in every case.
    pub start_streaming_outcome :
        ((start_streaming can_open camera resolution fps c).1.viewers ≡ c.viewers)
        × (c.is_streaming ≡ true → start_streaming can_open camera resolution fps c ≡ (ok tt, c))
        × ((w h : ℤ)
            → c.is_streaming ≡ false
            → number_in (width_text resolution) ≡ ok w
            → number_in (height_text resolution) ≡ ok h
            → can_open camera ≡ true
            → Started w h (start_streaming can_open camera resolution fps c))
        × ((e : Exception)
            → (start_streaming can_open camera resolution fps c).0 ≡ throw e
            → ((start_streaming can_open camera resolution fps c).1.is_streaming ≡ false)
              × ((start_streaming can_open camera resolution fps c).1.loops ≡ c.loops))
    start_streaming_outcome = elim (Bool-cases c.is_streaming) [
      | inl busy ↦
          rw (starts_busy busy)
            (refl, λ _. refl, λ w h idle _ _ _. absurd (true_and_false busy idle), λ e h. cc)
      | inr idle ↦ rw (starts_idle idle) (
        attempt_viewers _ _,
        λ busy. absurd (true_and_false busy idle),
        λ w h _ ew eh opens. rw (ew, eh) (attempt_starts w h opens),
        λ e h. attempt_throws _ _ e h,
      )
    ]

-- The resolution that a client writes as "WxH" is read as the two numbers.
pub resolution_roundtrip :
    (w h : ℕ)
    → w < 2 ^ 31
    → h < 2 ^ 31
    → (number_in (width_text (to_string w ++ b'x' ∷ to_string h)) ≡ ok (pos w))
      × (number_in (height_text (to_string w ++ b'x' ∷ to_string h)) ≡ ok (pos h))
resolution_roundtrip w h hw hh =
    let front = to_string w in
    let back = to_string h in
    let at : find_char b'x' (front ++ b'x' ∷ back) ≡ some (length front) =
      find_char_at b'x' front back (to_string-Lacks b'x' w (inr (omega arith))) in
    let next : (length front + 1) % 2 ^ 64 ≡ length front + 1 =
      omega (arith, length-to_string-le w) in
    let read_w : stoi front ≡ ok (pos w) = rw append-nil at (stoi-to_string w [] tt hw) in
    let read_h : stoi back ≡ ok (pos h) = rw append-nil at (stoi-to_string h [] tt hh) in
    (
      rw (at, substr_front front (b'x' ∷ back)) read_w,
      rw (at, next, substr_back front back b'x' (2 ^ 64 - 1) (omega (arith, length-to_string-le h)))
          read_h,
    )
