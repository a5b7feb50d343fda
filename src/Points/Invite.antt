-- ===== src/Points/Invite.antt =====
-- `creditInvitePoints`, `normalizeAffiliateCode` and `pointsPerInvitee` of go/affiliate_commands.go, and
-- `affiliateOwnerVerified` of go/affiliate_ownership.go: points for invited users who paid.
use Prim.Native.Char.{code}
use Prim.Native.String.{len, ◌++◌ as concat}
use erdai_agent.Prelude.{
  ℕ, suc, ◌*◌, ◌/◌, Bool, true, false, ◌&&◌, ◌||◌, if◌then◌else◌, leb, ltb, ◌==◌, String, Option,
  none, some, str_eq, List, [], ◌∷◌, ℤ, pos, negsuc, ◌+ℤ◌, neg, ltb_ℤ,
}
use erdai_agent.Core.{Env, Error, now_stamp, Result, ok, err, failed, conflict}
use erdai_agent.Text.{trim_space, has_prefix, drop_chars, fold_case}
use erdai_agent.Points.Store.{
  Identity, IdentityRow, EntryKind, adjustment, Entry, OwnerRow, Db, same_identity, account_of,
  is_account, insert_entry,
}
use erdai_agent.Points.Accounts.{scope, ensure_identity}
use erdai_agent.Points.Decimal.{decimal, cast_integer, max_integer}

abbrev code_char : ℕ → Bool
code_char c =
    (leb 97 c && leb c 122)
    || (leb 65 c && leb c 90)
    || (leb 48 c && leb c 57)
    || c == 95
    || c == 45

code_chars : String → Bool
code_chars String.[] = true
code_chars (String.◌∷◌ c s) = code_char (code c) && code_chars s

-- `normalizeAffiliateCode`; `upper` is `strings.ToUpper`
unfoldable pub normalize_affiliate_code : (String → String) → String → Option String
unfolding code_chars trim_space
normalize_affiliate_code upper value =
    let v = trim_space value in
    if ltb (len v) 4 || ltb 32 (len v) then none else if code_chars v then some (upper v) else none

-- `pointsPerInvitee`: the policy's points, 100 where it has none
unfoldable pub points_per_invitee : ℤ → ℕ
points_per_invitee (negsuc n) = 100
points_per_invitee (pos n) = if n == 0 then 100 else n

-- the two identities have one account
abbrev pub same_account : Option String → Option String → Bool
same_account none b = false
same_account (some a) b = is_account b a

-- equality of an affiliate code, COLLATE NOCASE
unfoldable pub same_code : String → String → Bool
unfolding fold_case
same_code String.[] String.[] = true
same_code (String.◌∷◌ c s) (String.◌∷◌ d t) =
    fold_case (code c) == fold_case (code d) && same_code s t
same_code s t = false

-- `agent_affiliate_bindings`, with the identity that a code is bound to
unfoldable pub is_bound : OwnerRow → List OwnerRow → Bool
unfolding same_code
is_bound o [] = false
is_bound o (b ∷ bs) =
    (same_code b.affiliate_code o.affiliate_code && same_identity b.identity o.identity)
    || is_bound o bs

abbrev pub owns : List IdentityRow → String → Identity → OwnerRow → Bool
owns rows code i o =
    str_eq o.affiliate_code code && same_account (account_of o.identity rows) (account_of i rows)

-- EXISTS of the INSERT
unfoldable pub owner_exists : List IdentityRow → String → Identity → List OwnerRow → Bool
owner_exists rows code i [] = false
owner_exists rows code i (o ∷ os) = owns rows code i o || owner_exists rows code i os

-- `affiliateOwnerVerified`
unfoldable pub owner_verified :
    List IdentityRow → List OwnerRow → String → Identity → List OwnerRow → Bool
unfolding is_bound
owner_verified rows bindings code i [] = false
owner_verified rows bindings code i (o ∷ os) =
    (is_bound o bindings && owns rows code i o) || owner_verified rows bindings code i os

abbrev pub invite_prefix : String → String
invite_prefix code = concat "invite:" (concat code ":")

abbrev pub is_adjustment : EntryKind → Bool
is_adjustment adjustment = true
is_adjustment _ = false

abbrev pub larger : Option ℤ → ℤ → Option ℤ
larger none n = some n
larger (some m) n = if ltb_ℤ m n then some n else some m

-- MAX(CAST(substr(reference_key, …) AS INTEGER)) over the adjustments with the prefix
unfoldable pub mark_from : String → Option ℤ → List Entry → Option ℤ
mark_from prefix acc [] = acc
mark_from prefix acc (x ∷ xs) =
    mark_from prefix
      (if is_adjustment x.kind && has_prefix x.reference_key prefix
        then larger acc (cast_integer (drop_chars x.reference_key prefix))
        else acc)
      xs

abbrev pub or_zero : Option ℤ → ℤ
or_zero none = pos 0
or_zero (some n) = n

-- `awarded_count`, of a normalized code
unfoldable pub awarded_count : String → List Entry → ℤ
unfolding mark_from
awarded_count code xs = or_zero (mark_from (invite_prefix code) none xs)

unfoldable pub scale : ℤ → ℕ → ℤ
scale (pos n) k = pos (n * k)
scale (negsuc n) k = neg (pos (suc n * k))

abbrev pub invite_entry : Env → String → Identity → String → ℕ → ℕ → ℤ → Entry
invite_entry e id i code paid rate awarded = record {
  id = id;
  identity = i;
  kind = adjustment;
  points = scale (pos paid +ℤ neg awarded) rate;
  reference_key = concat (invite_prefix code) (decimal paid);
  note = "邀请奖励同步";
  created_at = now_stamp e;
}

-- the INSERT … SELECT: it gives points where the count passed the mark
unfoldable pub insert_award : Env → Db → String → Identity → String → ℕ → ℕ → Result Db
unfolding awarded_count owner_exists
insert_award e db id i code paid rate =
    let awarded = awarded_count code db.entries in
    if ltb_ℤ awarded (pos paid) && owner_exists db.identities code i db.owners
    then insert_entry (invite_entry e id i code paid rate awarded) db
    else ok db

abbrev pub settled : Db → Result Db → Db × Option Error
settled db (ok db') = (db', none)
settled db (err x) = (db, some x)

abbrev pub with_id : Env → Db → Identity → String → ℕ → ℕ → Option String → Db × Option Error
with_id e db i code paid rate none = (db, some (failed "random identifier"))
with_id e db i code paid rate (some id) = settled db (insert_award e db id i code paid rate)

-- the range of the count, for a code whose owner is verified
unfoldable pub credit_count : Env → Db → Identity → String → ℤ → ℕ → Db × Option Error
unfolding insert_award
credit_count e db i code (negsuc n) rate =
    (db, some (failed "affiliate points exceed the supported range"))
credit_count e db i code (pos paid) rate =
    if ltb (max_integer / rate) paid
    then (db, some (failed "affiliate points exceed the supported range"))
    else with_id e db i code paid rate e.new_id

abbrev pub credit_code :
    (Identity → String)
    → Env
    → Db
    → List OwnerRow
    → Identity
    → ℤ
    → ℤ
    → Option String
    → Db × Option Error
credit_code initial e db bindings identity paid policy none =
    (db, some (failed "invalid affiliate award code"))
credit_code initial e db bindings identity paid policy (some code) =
    let i = scope e identity in
    let db₁ = (ensure_identity initial e i db).0 in
    if owner_verified db₁.identities bindings code i db₁.owners
    then credit_count e db₁ i code paid (points_per_invitee policy)
    else (db₁, some (conflict "affiliate_ownership_required"))

-- `creditInvitePoints`; the identity is ensured even where the rest fails
unfoldable pub credit_invite_points :
    (Identity → String)
    → (String → String)
    → Env
    → Db
    → List OwnerRow
    → Identity
    → String
    → ℤ
    → ℤ
    → Db × Option Error
unfolding normalize_affiliate_code owner_verified credit_count
credit_invite_points initial upper e db bindings identity code paid policy =
    credit_code initial e db bindings identity paid policy (normalize_affiliate_code upper code)
