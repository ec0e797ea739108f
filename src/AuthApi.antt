-- ===== src/AuthApi.antt =====
-- backend/src/auth/auth.controller.ts: the routes of a session. The refresh token travels in a cookie, or in the
-- body of a request for an exchange; the limits of requests a minute (@Throttle) are left out.
pub mod Cookie
use powergas.Base.{ℕ, Option, none, some, [], Bool}
use powergas.Table.{Uuid}
use powergas.Entities.{Text, User, OtpPurpose, phone_verification}
use powergas.World.{World, Action, internal_error, pure, or_raise, ◌>>=◌}
use powergas.Guards.{JwtPayload, guarded}
use powergas.Auth.{
  Libraries, Environment, RegisterDto, LoginDto, AuthTokens, register, login, refresh_tokens,
  logout, verify_otp, send_phone_otp,
}

-- What is answered, and the cookie that is set.
pub record SessionAnswer : Type 0 where
  pub access_token : Text
  pub expires_in : ℕ
  pub cookie : Text

unfoldable pub to_answer : AuthTokens → SessionAnswer
to_answer tokens = record {
  access_token = tokens.access_token;
  expires_in = tokens.expires_in;
  cookie = tokens.refresh_token;
}

-- `req.cookies?.refresh_token || req.body?.refreshToken`
abbrev pub either_token : Option Text → Option Text → Option Text
either_token (some token) in_body = some token
either_token none in_body = in_body

unfoldable pub post_logout : Option JwtPayload → Option Text → Action (Unit {0})
post_logout payload cookie = guarded [] payload λ (id, _). logout id cookie

unfoldable pub post_verify_otp : Option JwtPayload → Text → OtpPurpose → Action Bool
post_verify_otp payload code purpose = guarded [] payload λ (id, _). verify_otp id code purpose

unfoldable pub me : Option JwtPayload → Action (Uuid × User)
me payload = guarded [] payload λ user. pure user

module _ (lib : Libraries) where
  unfoldable pub post_refresh : Option Text → Option Text → Text → Action SessionAnswer
  post_refresh cookie in_body ip_address = do
    token ← or_raise (either_token cookie in_body) internal_error
    tokens ← refresh_tokens lib token ip_address
    pure (to_answer tokens)

module _ (lib : Libraries) (env : Environment) where
  unfoldable pub post_register : RegisterDto → Action (Unit {0})
  post_register dto = register lib env dto

  unfoldable pub post_login : LoginDto → Text → Text → Action SessionAnswer
  post_login dto ip_address user_agent = do
    tokens ← login lib env dto ip_address (some user_agent)
    pure (to_answer tokens)

  unfoldable pub resend_otp : Option JwtPayload → Action (Unit {0})
  resend_otp payload =
      guarded [] payload
        λ (id, user). send_phone_otp lib env (some id) user.phone phone_verification
