-- ===== src/Tunnel/Address.antt =====
-- From a line in the log of src/vk_tunnel.cpp to the address that src/http_session.cpp tells.
use streaming_server.Base.{
  ℕ, suc, ◌+◌, ◌-◌, ◌%◌, ◌^◌, ◌<◌, ◌≡◌, refl, ap, ◌∙◌, true, false, List, [], ◌∷◌, ◌++◌, Option,
  none, some, All, ◌⊎◌, inl, inr, length, take, drop-length-append, length-append, ltb, arith,
}
use streaming_server.Outcome.{Try, ok}
use streaming_server.Text.{Bytes, codes, substr}
use streaming_server.Text.Search.{find, starts_with}
use streaming_server.Http.{Surroundings, endpoint}
use streaming_server.Tunnel.{scan_line, scan_log, setup_tunnel}

take-length-plus : (xs ys : Bytes) (n : ℕ) → take (length xs + n) (xs ++ ys) ≡ xs ++ take n ys
take-length-plus [] ys n = let e : 0 + n ≡ n = omega arith in ap (λ (k : ℕ). take k ys) e
take-length-plus (x ∷ xs) ys n =
    let e : length (x ∷ xs) + n ≡ suc (length xs + n) = omega arith in
    ap (λ (k : ℕ). take k (x ∷ (xs ++ ys))) e ∙ ap (λ t. x ∷ t) (take-length-plus xs ys n)

substr-at : (xs ys : Bytes) (n : ℕ) → substr (xs ++ ys) (length xs) n ≡ ok (take n ys)
unfolding substr
substr-at xs ys n =
    let inside : ltb (length (xs ++ ys)) (length xs) ≡ false =
      ground (arith, length-append xs ys) in
    rw (inside, drop-length-append xs ys) refl

-- A line that is not taken for one with an address.
abbrev pub HasNoAddress : Bytes → Type 0
HasNoAddress line =
    (find (codes "https://") line ≡ none) ⊎ (find (codes ".vk-apps.com") line ≡ none)

scan_line-endless :
    (line : Bytes) (o : Option ℕ) (rest : Try Bytes) → scan_line line o none rest ≡ rest
scan_line-endless line none rest = refl
scan_line-endless line (some i) rest = refl

scan_log-before :
    (before lines : List Bytes)
    → All HasNoAddress before
    → scan_log (before ++ lines) ≡ scan_log lines
unfolding scan_log
scan_log-before [] lines h = refl
scan_log-before (x ∷ before) lines (inl e, h) = rw e (scan_log-before before lines h)
scan_log-before (x ∷ before) lines (inr e, h) =
    rw e (scan_line-endless x (find (codes "https://") x) _ ∙ scan_log-before before lines h)

module _ (pre host rest : Bytes) where
  abbrev pub logged : Bytes
  logged = pre ++ (codes "https://" ++ (host ++ (codes ".vk-apps.com" ++ rest)))

  -- The name behind "https://", with the next two bytes of the line.
  abbrev pub name : Bytes
  name = host ++ (codes ".vk-apps.com" ++ take 2 rest)

  logged_first :
      (later : List Bytes)
      → length logged < 2 ^ 63
      → find (codes "https://") logged ≡ some (length pre)
      → find (codes ".vk-apps.com") logged ≡ some (length pre + (8 + length host))
      → scan_log (logged ∷ later) ≡ ok (codes "https://" ++ name)
  unfolding scan_log
  logged_first later short at_start at_end =
      let tail = codes ".vk-apps.com" ++ rest in
      let size : (length pre + (8 + length host) + 2 ^ 64 - length pre + 14) % 2 ^ 64
          ≡ 8 + (length host + 14) =
        omega (
          arith,
          short,
          length-append pre (codes "https://" ++ (host ++ tail)),
          length-append host tail,
        ) in
      let cut =
        take-length-plus (codes "https://") (host ++ tail) (length host + 14)
        ∙ ap (λ t. codes "https://" ++ t) (take-length-plus host tail 14) in
      rw (at_start, at_end, size) (substr-at pre _ _ ∙ ap ok cut)

  -- In a log whose lines before some line lack "https://" or ".vk-apps.com" each, and where in that
  -- line the first "https://" stands before the first ".vk-apps.com", the tunnel's address is the text
  -- of the line from the one to the other and the next two bytes, as many as there are, and the
  -- endpoint that the server tells appends "stream" to that without a "/". The line is shorter than
  -- 2^63 bytes.
  pub tunnel_endpoint :
      (before later : List Bytes) (env : Surroundings)
      → All HasNoAddress before
      → length logged < 2 ^ 63
      → find (codes "https://") logged ≡ some (length pre)
      → find (codes ".vk-apps.com") logged ≡ some (length pre + (8 + length host))
      → (setup_tunnel true false (before ++ logged ∷ later) ≡ ok (codes "https://" ++ name))
        × (endpoint (record env { tunnel_url = codes "https://" ++ name })
            ≡ codes "wss://" ++ (name ++ codes "stream"))
  unfolding setup_tunnel endpoint find starts_with
  tunnel_endpoint before later env silent short at_start at_end = (
    scan_log-before before (logged ∷ later) silent ∙ logged_first later short at_start at_end,
    refl,
  )
