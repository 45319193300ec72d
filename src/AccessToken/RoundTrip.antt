-- ===== src/AccessToken/RoundTrip.antt =====
-- What an issued access token is good for, and for how long: PyJWT keeps times in whole seconds.
use Prim.Native.Nat.{◌/◌, ◌*◌}
use native.Mathlib.Nat.{div-mul-le_self}
use hexagonal_auth_service.Base.{
  ℕ, ◌+◌, ◌≤◌, ◌<◌, ◌≡◌, refl, some, Text, codes, ltb, Bool-cases, inl, inr, arith, if◌then◌else◌,
}
use hexagonal_auth_service.Errors.{access_token_expired}
use hexagonal_auth_service.Exec.{ok, err}
use hexagonal_auth_service.Env.{Env, Claims, payload, expired, invalid}
use hexagonal_auth_service.AccessToken.{issue, verify, subject}

-- the whole seconds of a time, in microseconds
abbrev pub whole_seconds : ℕ → ℕ
whole_seconds t = t / 1000000 * 1000000

module _ ⦃env : Env⦄ where
  -- What PyJWT and `uuid` document: `encode` turns "iat" and "exp" into whole seconds; of a token that
  -- was encoded with the same key, `decode` raises `ImmatureSignatureError` before "iat" and
  -- `ExpiredSignatureError` from "exp" on, and returns the claims in between; a UUID is read back.
  pub record IsSigning : Type 0 where
    pub decode_immature :
        (c : Claims) (now : ℕ) → now < whole_seconds c.iat → env.decode (env.encode c) now ≡ invalid
    pub decode_live :
        (c : Claims) (now : ℕ)
        → whole_seconds c.iat ≤ now
        → now < whole_seconds c.exp
        → env.decode (env.encode c) now ≡ payload (some c.sub)
    pub decode_expired :
        (c : Claims) (now : ℕ)
        → whole_seconds c.iat ≤ now
        → whole_seconds c.exp ≤ now
        → env.decode (env.encode c) now ≡ expired
    pub parse_text : (id : ℕ) → env.parse_uuid (env.uuid_text id) ≡ some id

  -- what the issuer signs
  abbrev issued : ℕ → ℕ → ℕ → Claims
  issued user_id expiry now = record {
    sub = env.uuid_text user_id;
    iat = now;
    exp = now + expiry;
    kind = codes "access";
  }

  whole_seconds_le : (t : ℕ) → whole_seconds t ≤ t
  whole_seconds_le t = div-mul-le_self t 1000000

  -- a token that was issued, at a time that is not before
  pub verify-issue :
      IsSigning
      → (user_id expiry n k : ℕ) (t : Text) → (issue user_id expiry n).0 ≡ ok t
      → env.clock n ≤ env.clock k
      → (verify t k).0 ≡ (
          if ltb (env.clock k) (whole_seconds (env.clock n + expiry))
          then ok user_id
          else err (access_token_expired (codes "Access token expired")))
  unfolding issue verify subject
  verify-issue law user_id expiry n k t h late =
      let c = issued user_id expiry (env.clock n) in
      let now = env.clock k in
      let same : env.encode c ≡ t = ground arith in
      let mature : whole_seconds c.iat ≤ now =
        omega (arith, whole_seconds_le (env.clock n), late) in
      rw (← same) (elim (Bool-cases (ltb now (whole_seconds c.exp))) [
        | inl live ↦
            rw (live, law.decode_live c now mature (ground arith))
              (rw (law.parse_text user_id, subject) refl)
        | inr over ↦ rw (over, law.decode_expired c now mature (ground arith)) refl
      ])
