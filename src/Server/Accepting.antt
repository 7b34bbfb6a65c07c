-- ===== src/Server/Accepting.antt =====
-- The accept loop of src/server.cpp as long as `ioc.run()` of src/main.cpp lasts.
use streaming_server.Base.{
  ℕ, ◌+◌, ◌-◌, ◌≡◌, refl, ap, ◌∙◌, sym, List, [], ◌∷◌, ◌++◌, append-nil, append_assoc, map, Option,
  none, some, arith, Option-cases, inl, inr,
}
use streaming_server.Outcome.{runtime_error, Try, ok, throw}
use streaming_server.Outcome.Actions.{after, lift}
use streaming_server.Text.{Bytes}
use streaming_server.Server.{
  Server, raised, accept_ended, fails, connects, handle_accept, do_accept,
}
use streaming_server.Server.Steps.{first_error}
use streaming_server.Server.Main.{Handler, accepts, runs, handle, serve}

-- The message of the exception that leaves a handler, if any.
abbrev pub thrown : Handler → Option Bytes
thrown (accepts (fails message)) = none
thrown (accepts (connects socket remote)) = remote
thrown (runs message) = message

-- The sockets of the connections.
abbrev pub sockets : List Handler → List ℕ
sockets [] = []
sockets (accepts (connects socket remote) ∷ es) = socket ∷ sockets es
sockets (e ∷ es) = sockets es

abbrev pub with_sessions : Server → List ℕ → Server
with_sessions s more = record s { sessions = s.sessions ++ more }

raised_breaks :
    (o : Option Bytes) (message : Bytes)
    → o ≡ some message
    → raised o ≡ throw (runtime_error message)
raised_breaks none message e = ground (arith, e)
raised_breaks (some m) message e = ground (arith, e)

handle_throws :
    (e : Handler) (s : Server) (message : Bytes)
    → thrown e ≡ some message
    → (handle e s).0 ≡ throw (runtime_error message)
unfolding handle_accept
handle_throws (accepts (fails m)) s message h = ground (arith, h)
handle_throws (accepts (connects socket remote)) s message h =
    rw (raised_breaks remote message h) refl
handle_throws (runs o) s message h = raised_breaks o message h

rearmed :
    (s : Server) (more : List ℕ)
    → s.accepts_waiting ≡ 1
    → do_accept
        (record s { accepts_waiting = s.accepts_waiting - 1; sessions = s.sessions ++ more })
      ≡ with_sessions s more
unfolding do_accept
rearmed s more one =
    let again : s.accepts_waiting - 1 + 1 ≡ s.accepts_waiting = omega (arith, one) in
    ap (λ (n : ℕ). record s { accepts_waiting = n; sessions = s.sessions ++ more }) again

no_sessions : (s : Server) → with_sessions s [] ≡ s
no_sessions s = ap (λ (ns : List ℕ). record s { sessions = ns }) (append-nil s.sessions)

went_on : Server → Try (Unit {0}) × Server
went_on s = (ok tt, s)

handle_goes_on :
    (e : Handler) (s : Server)
    → s.accepts_waiting ≡ 1
    → thrown e ≡ none
    → handle e s ≡ (ok tt, with_sessions s (sockets (e ∷ [])))
unfolding handle_accept went_on
handle_goes_on (accepts (fails m)) s one h =
    ap (λ t. went_on (do_accept (accept_ended t))) (sym (no_sessions s))
    ∙ ap went_on (rearmed s [] one)
handle_goes_on (accepts (connects socket none)) s one h = ap went_on (rearmed s (socket ∷ []) one)
handle_goes_on (accepts (connects socket (some m))) s one h = ground (arith, h)
handle_goes_on (runs none) s one h = ap went_on (sym (no_sessions s))
handle_goes_on (runs (some m)) s one h = ground (arith, h)

abbrev continued : List Handler → Try (Unit {0}) × Server → Try (Unit {0}) × Server
continued es (ok u, s) = serve es s
continued es (throw e, s) = (throw e, s)

continued-eq :
    (es : List Handler) (r : Try (Unit {0}) × Server)
    → after r.0 (λ u. serve es) r.1 ≡ continued es r
continued-eq es (ok u, s) = refl
continued-eq es (throw e, s) = refl

serve-cons :
    (e : Handler) (es : List Handler) (s : Server) → serve (e ∷ es) s ≡ continued es (handle e s)
unfolding serve
serve-cons e es s = continued-eq es (handle e s)

passed :
    (es : List Handler) {message : Bytes} (r : Try (Unit {0}) × Server)
    → r.0 ≡ throw (runtime_error message)
    → (continued es r).0 ≡ throw (runtime_error message)
passed es (ok u, s) h = ground (arith, h)
passed es (throw e, s) h = h

serve_throws :
    (e : Handler) (es : List Handler) (s : Server) (message : Bytes)
    → thrown e ≡ some message
    → (serve (e ∷ es) s).0 ≡ throw (runtime_error message)
serve_throws e es s message h =
    ap (λ r. r.0) (serve-cons e es s) ∙ passed es (handle e s) (handle_throws e s message h)

-- What is known of the first exception among some handlers, once all of them have run.
pub record Served (es : List Handler) (s : Server) : Type 0 where
  pub goes_on :
      first_error (map thrown es) ≡ none → serve es s ≡ (ok tt, with_sessions s (sockets es))
  pub breaks :
      (message : Bytes)
      → first_error (map thrown es) ≡ some message
      → (serve es s).0 ≡ throw (runtime_error message)

sockets-cons : (e : Handler) (es : List Handler) → sockets (e ∷ []) ++ sockets es ≡ sockets (e ∷ es)
sockets-cons (accepts (fails m)) es = refl
sockets-cons (accepts (connects socket remote)) es = refl
sockets-cons (runs o) es = refl

serve_goes_on :
    (e : Handler) (es : List Handler) (s : Server)
    → s.accepts_waiting ≡ 1
    → thrown e ≡ none
    → serve (e ∷ es) s ≡ serve es (with_sessions s (sockets (e ∷ [])))
serve_goes_on e es s one h = serve-cons e es s ∙ ap (continued es) (handle_goes_on e s one h)

sessions_join :
    (e : Handler) (es : List Handler) (s : Server)
    → with_sessions (with_sessions s (sockets (e ∷ []))) (sockets es)
      ≡ with_sessions s (sockets (e ∷ es))
sessions_join e es s =
    ap (λ (ns : List ℕ). record s { sessions = ns })
      (append_assoc s.sessions (sockets (e ∷ [])) (sockets es)
        ∙ ap (λ ns. s.sessions ++ ns) (sockets-cons e es))

some_is_not_none : (m : Bytes) → ¬ (some m ≡ none)
some_is_not_none m h = ground (arith, h)

pub serve_lem : (es : List Handler) (s : Server) → s.accepts_waiting ≡ 1 → Served es s
unfolding serve went_on
serve_lem [] s one = record {
  goes_on = λ h. ap went_on (sym (no_sessions s));
  breaks = λ message h. ground (arith, h);
}
serve_lem (e ∷ es) s one = elim (Option-cases (thrown e)) [
  | inl calm ↦
      let rest = serve_lem es (with_sessions s (sockets (e ∷ []))) one in
      record {
        goes_on = λ h.
            serve_goes_on e es s one calm
            ∙ (rest.goes_on (rw calm at h) ∙ ap went_on (sessions_join e es s));
        breaks = λ message h.
            ap (λ r. r.0) (serve_goes_on e es s one calm) ∙ rest.breaks message (rw calm at h);
      }
  | inr (m, broken) ↦ record {
    goes_on = λ h. absurd (some_is_not_none m (rw broken at h));
    breaks = λ message h. serve_throws e es s message (broken ∙ rw broken at h);
  }
]

raised-url :
    (o : Option Bytes) (s : Server) → (lift (raised o) s).1.cloud_tunnel_url ≡ s.cloud_tunnel_url
raised-url none s = refl
raised-url (some m) s = refl

handle-url : (e : Handler) (s : Server) → (handle e s).1.cloud_tunnel_url ≡ s.cloud_tunnel_url
unfolding handle_accept do_accept
handle-url (accepts (fails m)) s = refl
handle-url (accepts (connects socket none)) s = refl
handle-url (accepts (connects socket (some m))) s = refl
handle-url (runs o) s = raised-url o s

continued-url :
    (es : List Handler) (r : Try (Unit {0}) × Server)
    → ((s : Server) → (serve es s).1.cloud_tunnel_url ≡ s.cloud_tunnel_url)
    → (continued es r).1.cloud_tunnel_url ≡ r.1.cloud_tunnel_url
continued-url es (ok u, s) keeps = keeps s
continued-url es (throw e, s) keeps = refl

pub serve-url :
    (es : List Handler) (s : Server) → (serve es s).1.cloud_tunnel_url ≡ s.cloud_tunnel_url
unfolding serve
serve-url [] s = refl
serve-url (e ∷ es) s =
    ap (λ r. r.1.cloud_tunnel_url) (serve-cons e es s)
    ∙ (continued-url es (handle e s) (serve-url es) ∙ handle-url e s)

-- As long as no exception leaves a handler, exactly one accept waits, and the sessions are those of
-- the connections in their order, failed accepts or not. One accept waits at first.
pub serve_rearms :
    (es : List Handler) (s : Server)
    → s.accepts_waiting ≡ 1
    → first_error (map thrown es) ≡ none
    → serve es s ≡ (ok tt, with_sessions s (sockets es))
serve_rearms es s one calm = (serve_lem es s one).goes_on calm
