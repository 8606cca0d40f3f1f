-- ===== src/Journal/Discord.antt =====
-- kalshi_agent/journal/discord.py: the throttle and the second attempt of `post`. Times are
-- microseconds on the monotonic clock; the text and what a second attempt answers are left out.
use kalshi_agent.Base.{ℕ, ◌+◌, ◌-◌, ◌≤◌, arith, Bool, true, ltb, ◌==◌, if◌then◌else◌}

-- What an attempt gives: a status with its retry-after, or an exception.
pub data Answer : Type 0 where
  reply : ℕ → ℕ → Answer
  failure : Answer

-- How long `post` waits before its first attempt.
unfoldable pub throttle : ℕ → ℕ → ℕ → ℕ
throttle interval last_post now =
    let elapsed = now - last_post in if ltb elapsed interval then interval - elapsed else 0

-- How many attempts are made, and the wait between the two.
unfoldable pub attempts : Answer → ℕ × ℕ
attempts (reply status retry_after) = if status == 429 then (2, retry_after + 500_000) else (1, 0)
attempts failure = (1, 0)

-- `post`: the number of attempts, the time at which the first is made, and `_last_post` behind the
-- call, which ends at `ended` on the clock. It never raises.
unfoldable pub post : Bool → ℕ → ℕ → Answer → ℕ → ℕ → (ℕ × ℕ) × ℕ
unfolding throttle attempts
post enabled interval now answer ended last_post =
    if enabled
    then (((attempts answer).0, now + throttle interval last_post now), ended)
    else ((0, now), last_post)

-- The first attempt of a post comes at least the interval behind the end of the last post.
post_keeps_interval :
    (interval now last_post ended : ℕ) (answer : Answer)
    → last_post ≤ now
    → last_post + interval ≤ (post true interval now answer ended last_post).0.1
unfolding post throttle
post_keeps_interval interval now last_post ended answer h = ground arith
