-- ===== src/Upstream/Return.antt =====
-- What the server seals on one request, it reads back on a later one (src/upstream/mod.rs).
use nano_mockidp.Base.{
  ℕ, ◌<◌, String, Option, none, some, [], ◌∷◌, ◌≡◌, refl, arith, eq_iff, ltb, if◌then◌else◌,
}
use nano_mockidp.Base.Map.{get}
use nano_mockidp.Crates.{Crates, SigningKey, IsFaithful, ReadsBack}
use nano_mockidp.Json.{object, fields, Claims}
use nano_mockidp.State.{Env, Gate}
use nano_mockidp.Store.Data.{unix_secs}
use nano_mockidp.Token.Issue.{add_u64}
use nano_mockidp.Token.Signature.{entries-fields}
use nano_mockidp.Upstream.Login.{pending_login, login_of, new_session, login_ttl}
use nano_mockidp.Upstream.Opening.{opened-seal}
use nano_mockidp.Upstream.Seal.{
  GateSession, PendingLogin, sealed_session, sealed_login, seal, opened, session_entries,
  login_entries,
}
use nano_mockidp.Upstream.Wire.{Wire}

read_login_back :
    (l : PendingLogin) (copy : Claims)
    → ((k : String) → get k copy ≡ get k (login_entries l))
    → sealed_login.read (object (fields copy)) ≡ some l
read_login_back l copy same = rw (entries-fields copy) (
    rw (same "state", same "nonce", same "verifier", same "return_to", same "exp")
      (unfold get in refl))

-- The value that a session is read from, if its four lookups are given.
session_lookups :
    (sub : String) (email : Option String) (claims : Claims) (exp : ℕ)
    → let s : GateSession = record { sub = sub; email = email; claims = claims; exp = exp } in
      sealed_session.read (object (fields (session_entries s))) ≡ some s
unfolding get
session_lookups sub none [] exp = refl
session_lookups sub (some e) [] exp = refl
session_lookups sub none (c ∷ cs) exp = rw (entries-fields cs) refl
session_lookups sub (some e) (c ∷ cs) exp = rw (entries-fields cs) refl

read_session_back :
    (s : GateSession) (copy : Claims)
    → ((k : String) → get k copy ≡ get k (session_entries s))
    → sealed_session.read (object (fields copy)) ≡ some s
read_session_back s copy same = rw (entries-fields copy) (
    rw (same "sub", same "email", same "claims", same "exp")
      (rw (entries-fields (session_entries s)) at (session_lookups s.sub s.email s.claims s.exp)))

module _ (lib : Crates) (signing : SigningKey) (wire : Wire) (gate : Gate) (env env' : Env)
    (faithful : IsFaithful lib signing) where
  -- The pre-login cookie that a request to log in sets is recognised by a callback with the state of
  -- that request, for ten minutes: it yields the nonce, the
  -- verifier and the URL to return to, if the libraries read back what they write.
  pub login_of-pending_login :
      (return_to : String)
      → ReadsBack lib (login_entries (pending_login lib wire gate env return_to))
      → unix_secs (env'.now 0) < add_u64 (unix_secs (env.now 0)) login_ttl
      → login_of lib wire gate env'
          (env.random 1)
          (seal lib sealed_login gate.key (pending_login lib wire gate env return_to))
        ≡ some (pending_login lib wire gate env return_to)
  unfolding login_of
  login_of-pending_login return_to r in_time =
      rw
        (opened-seal lib signing sealed_login gate.key (pending_login lib wire gate env return_to) _
          (unix_secs (env'.now 0)) faithful r.read (read_login_back _ r.copy r.same))
        (ground (arith, eq_iff (env.random 1) (env.random 1)))

  -- The gate cookie that a callback sets opens as the session of the upstream's subject until the session
  -- expires, and not from then on.
  pub opened-new_session :
      (sub : String) (claims : Claims) (now : ℕ)
      → ReadsBack lib (session_entries (new_session lib wire gate env sub claims))
      → opened lib sealed_session gate.key
          (seal lib sealed_session gate.key (new_session lib wire gate env sub claims))
          now
        ≡ (if ltb now (add_u64 (unix_secs (env.now 2)) gate.cfg.session_ttl)
            then some (new_session lib wire gate env sub claims)
            else none)
  opened-new_session sub claims now r =
      opened-seal lib signing sealed_session gate.key (new_session lib wire gate env sub claims) _
        now faithful r.read (read_session_back _ r.copy r.same)
