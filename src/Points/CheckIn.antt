-- ===== src/Points/CheckIn.antt =====
-- `recordDailyCheckIn` of go/affiliate_commands.go: one award for an account and a day.
use Prim.Native.String.{◌++◌ as concat}
use erdai_agent.Prelude.{Bool, true, false, not, if◌then◌else◌, String, ℤ, pos, ltb_ℤ}
use erdai_agent.Core.{Env, now_stamp, Result, ok, ◌>>=◌, or_fail, failed}
use erdai_agent.Points.Store.{Identity, Entry, check_in, Db, balance, insert_entry}
use erdai_agent.Points.Accounts.{scope, ensure_identity}
use erdai_agent.Points.Merge.{has_checkin, put_checkin}

-- `checkInPoints`: the policy's points, 10 where it has none
unfoldable pub check_in_points : ℤ → ℤ
check_in_points p = if ltb_ℤ p (pos 1) then pos 10 else p

abbrev pub award_entry : Env → String → Identity → ℤ → String → Entry
award_entry e id i points date = record {
  id = id;
  identity = i;
  kind = check_in;
  points = points;
  reference_key = concat "check-in:" date;
  note = "每日签到";
  created_at = now_stamp e;
}

-- the award, where the check-in is new
unfoldable pub award : Env → Db → String → Identity → ℤ → String → Bool → Result Db
award e db id i points date true = insert_entry (award_entry e id i points date) db
award e db id i points date false = ok db

-- `date` is the day in Shanghai; the result says whether points were awarded, and the balance
unfoldable pub daily_check_in :
    (Identity → String) → Env → Db → Identity → ℤ → String → Result (Db × Bool × ℤ)
daily_check_in initial e db identity policy date = do
  id ← or_fail e.new_id (failed "random identifier")
  let i = scope e identity
  let (db₁, account) = ensure_identity initial e i db
  let awarded = not (has_checkin account date db₁.checkins)
  let db₂ = record db₁ { checkins = put_checkin account date db₁.checkins }
  db₃ ← award e db₂ id i (check_in_points policy) date awarded
  sum ← balance db₃ account
  ok (db₃, awarded, sum)
