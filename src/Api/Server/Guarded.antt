-- ===== src/Api/Server/Guarded.antt =====
-- What a request without the token can reach in kalshi_agent/api.
use kalshi_agent.Base.{◌≡◌, ◌≢◌, ◌⊎◌, inl, inr, refl, Bool, Bool-cases, true, false, some, arith}
use kalshi_agent.Config.{Config}
use kalshi_agent.Texts.{Text}
use kalshi_agent.Api.Auth.{
  bearer, Request, is_localhost, Verdict, passes, unauthorized, type_error, require_control_auth,
  require_observer_auth,
}
use kalshi_agent.Api.Auth.Tokens.{auth_needs_token}
use kalshi_agent.Api.Server.{
  Route, health, dashboard, get_positions, get_trades, get_equity_curve, get_pnl, get_market,
  post_halt, post_resume, post_reconcile, Response, refused, failed, Service, World, handle,
  dependency, guarded, serve,
}

-- The routes that are read with no dependency.
abbrev pub is_public : Route → Bool
is_public health = true
is_public dashboard = true
is_public _ = false

-- The routes that change something.
abbrev pub is_control : Route → Bool
is_control (post_halt _) = true
is_control post_resume = true
is_control (post_reconcile _) = true
is_control _ = false

abbrev pub IsTurnedAway : Response → Type 0
IsTurnedAway a = (a ≡ refused) ⊎ (a ≡ failed)

guarded_keeps :
    (v : Verdict) (done : Response × Service) (s : Service)
    → (v ≡ passes → done.1 ≡ s)
    → (guarded v done s).1 ≡ s
guarded_keeps passes done s h = h refl
guarded_keeps unauthorized done s h = refl
guarded_keeps type_error done s h = refl

guarded-IsTurnedAway :
    (v : Verdict) (done : Response × Service) (s : Service)
    → v ≢ passes
    → IsTurnedAway (guarded v done s).0
guarded-IsTurnedAway passes done s h = absurd (h refl)
guarded-IsTurnedAway unauthorized done s h = inl refl
guarded-IsTurnedAway type_error done s h = inr refl

module _ (cfg : Config) (w : World) (token : Text) where
  views_keep :
      (route : Route) (s : Service) → is_control route ≡ false → (handle cfg w route s).1 ≡ s
  unfolding handle
  views_keep health s h = refl
  views_keep dashboard s h = refl
  views_keep get_positions s h = refl
  views_keep (get_trades n) s h = refl
  views_keep (get_equity_curve n) s h = refl
  views_keep (get_pnl p) s h = refl
  views_keep (get_market t) s h = refl
  views_keep (post_halt r) s h = absurd (ground arith)
  views_keep post_resume s h = absurd (ground arith)
  views_keep (post_reconcile i) s h = absurd (ground arith)

  module _ (r : Request) (missing : bearer w.lower r.authorization ≢ some token) where
    control_stops : require_control_auth w.lower token r ≢ passes
    control_stops h = missing ((auth_needs_token w.lower token r).0 h)

    observer_stops : is_localhost r ≡ false → require_observer_auth w.lower token r ≢ passes
    observer_stops far h = missing ((auth_needs_token w.lower token r).1 h far)

    control_route_stops :
        (route : Route) → is_control route ≡ true → dependency w.lower token route r ≢ passes
    unfolding dependency
    control_route_stops (post_halt x) h = control_stops
    control_route_stops post_resume h = control_stops
    control_route_stops (post_reconcile i) h = control_stops
    control_route_stops health h = absurd (ground arith)
    control_route_stops dashboard h = absurd (ground arith)
    control_route_stops get_positions h = absurd (ground arith)
    control_route_stops (get_trades n) h = absurd (ground arith)
    control_route_stops (get_equity_curve n) h = absurd (ground arith)
    control_route_stops (get_pnl p) h = absurd (ground arith)
    control_route_stops (get_market t) h = absurd (ground arith)

    remote_route_stops :
        (route : Route)
        → is_public route ≡ false
        → is_localhost r ≡ false
        → dependency w.lower token route r ≢ passes
    unfolding dependency
    remote_route_stops (post_halt x) h far = control_stops
    remote_route_stops post_resume h far = control_stops
    remote_route_stops (post_reconcile i) h far = control_stops
    remote_route_stops health h far = absurd (ground arith)
    remote_route_stops dashboard h far = absurd (ground arith)
    remote_route_stops get_positions h far = observer_stops far
    remote_route_stops (get_trades n) h far = observer_stops far
    remote_route_stops (get_equity_curve n) h far = observer_stops far
    remote_route_stops (get_pnl p) h far = observer_stops far
    remote_route_stops (get_market t) h far = observer_stops far

  -- A request that does not carry the token leaves the kill switch and the tables as they are,
  -- whatever its route and its host; and if it does not come from localhost it is turned away from
  -- every route but the health check and the dashboard.
  pub no_token_no_change :
      (route : Route) (r : Request) (s : Service)
      → bearer w.lower r.authorization ≢ some token
      → ((serve cfg w token route r s).1 ≡ s)
        × (is_public route ≡ false
            → is_localhost r ≡ false
            → IsTurnedAway (serve cfg w token route r s).0)
  unfolding serve
  no_token_no_change route r s missing =
      let v = dependency w.lower token route r in
      let done = handle cfg w route s in
      (
        elim (Bool-cases (is_control route)) [
          | inl c ↦ guarded_keeps v done s (λ p. absurd (control_route_stops r missing route c p))
          | inr c ↦ guarded_keeps v done s (λ p. views_keep route s c)
        ],
        λ h far. guarded-IsTurnedAway v done s (remote_route_stops r missing route h far),
      )
