-- ===== src/Upstream/SignedIn.antt =====
-- A browser that an upstream provider has signed in logs in at the gate (src/upstream/mod.rs and
-- src/routes/authorize.rs).
use nano_mockidp.Base.{
  ◌<◌, String, Option, none, some, List, ◌≡◌, arith, ltb, Bool-cases, inl, inr, ap, sym, ◌∙◌,
  if◌then◌else◌,
}
use nano_mockidp.Base.Holds.{some-injective}
use nano_mockidp.Base.Map.{get}
use nano_mockidp.Crates.{Crates, SigningKey, IsFaithful, ReadsBack}
use nano_mockidp.Json.{Claims}
use nano_mockidp.Routes.Authorize.{authorize_post, gate_session, tester_sub, tester_email}
use nano_mockidp.Routes.LoggedIn.{let_in, authorize_post-Stored}
use nano_mockidp.Routes.Validate.{AuthorizeQuery, LoginForm}
use nano_mockidp.State.{AppState, Env, Gate}
use nano_mockidp.Store.Data.{Expiring, CodeEntry, Store, unix_secs}
use nano_mockidp.Token.Issue.{add_u64}
use nano_mockidp.Upstream.Gate.{cookie_name, cookie_value}
use nano_mockidp.Upstream.Login.{new_session, email_of}
use nano_mockidp.Upstream.Return.{opened-new_session}
use nano_mockidp.Upstream.Seal.{GateSession, sealed_session, session_entries, seal}
use nano_mockidp.Upstream.Wire.{Wire}

module _ (lib : Crates) (signing : SigningKey) (wire : Wire) (gate : Gate) (env env' : Env)
    (faithful : IsFaithful lib signing) (app : AppState) (gated : app.gate ≡ some gate)
    (sub : String) (claims : Claims) (cookies : List String)
    (presents : cookie_value cookies cookie_name
      ≡ some (seal lib sealed_session gate.key (new_session lib wire gate env sub claims)))
    (readable : ReadsBack lib (session_entries (new_session lib wire gate env sub claims))) where
  session_read : gate_session lib gate cookies (unix_secs (env'.now 2)) ≡ (
      if ltb (unix_secs (env'.now 2)) (add_u64 (unix_secs (env.now 2)) gate.cfg.session_ttl)
      then some (new_session lib wire gate env sub claims)
      else none)
  unfolding gate_session
  session_read = rw presents (
      opened-new_session lib signing wire gate env env' faithful sub claims (unix_secs (env'.now 2))
        readable)

  let_in_session :
      (tester : Option GateSession)
      → let_in lib env' app cookies ≡ some tester
      → (unix_secs (env'.now 2) < add_u64 (unix_secs (env.now 2)) gate.cfg.session_ttl)
        × (tester ≡ some (new_session lib wire gate env sub claims))
  let_in_session tester h =
      elim (Bool-cases
        (ltb (unix_secs (env'.now 2)) (add_u64 (unix_secs (env.now 2)) gate.cfg.session_ttl))) [
          | inl early ↦ (
            ground (arith, early),
            sym (some-injective (rw (session_read, early) at (rw gated at h))),
          )
          | inr late ↦
              let stopped : ◌≡◌ {A = Option (Option GateSession)} none (some tester) =
                rw (session_read, late) at (rw gated at h) in
              absurd cc
        ]

  -- If a browser presents the gate cookie that a callback has set for a subject of the upstream, and its
  -- login stores a code that was not there before, then the session of the cookie has not expired, and
  -- the code names that subject and the email of its ID token, whoever the login is for.
  pub signed_in_login :
      (q : AuthorizeQuery) (raw : Option String) (form : LoginForm) (s : Store)
      (e : Expiring CodeEntry)
      → get (env'.random 0) s.codes ≡ none
      → get (env'.random 0) (authorize_post lib app env' q raw cookies form s).1.codes ≡ some e
      → (unix_secs (env'.now 2) < add_u64 (unix_secs (env.now 2)) gate.cfg.session_ttl)
        × (e.value.upstream_sub ≡ some sub)
        × (e.value.upstream_email ≡ email_of lib wire gate env claims)
  signed_in_login q raw form s e absent stored =
      let (tester, passes, (req, valid, entry)) =
        authorize_post-Stored lib env' s absent e app q raw cookies form stored in
      let (early, same) = let_in_session tester passes in
      (early, entry.names ∙ ap tester_sub same, entry.mails ∙ ap tester_email same)
