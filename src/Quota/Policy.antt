-- ===== src/Quota/Policy.antt =====
-- The policy of go/media_quota.go: `updatePolicy`, `normalizeMediaQuotaWhitelist` and `exempts`.
use Prim.Native.String.{len}
use erdai_agent.Prelude.{
  ℕ, Bool, true, false, not, ◌&&◌, ◌||◌, if◌then◌else◌, String, str_eq, List, [], ◌∷◌, ◌++◌, ℤ, pos,
  ltb_ℤ, ltb, pos_part, length,
}
use erdai_agent.Core.{Stamp, Result, ok, err, ◌>>=◌, ◌>>◌, guard, failed}
use erdai_agent.Text.{trim_space}
use erdai_agent.Quota.Store.{WhitelistEntry, Config, QuotaDb}

abbrev pub max_media_daily_limit : ℕ
max_media_daily_limit = 100

abbrev pub max_media_quota_whitelist : ℕ
max_media_quota_whitelist = 100

-- `seen[senderRef]`
unfoldable pub seen_sender : String → List WhitelistEntry → Bool
seen_sender ref [] = false
seen_sender ref (w ∷ ws) = str_eq w.sender_ref ref || seen_sender ref ws

abbrev pub trimmed : WhitelistEntry → WhitelistEntry
trimmed w = record { label = trim_space w.label; sender_ref = trim_space w.sender_ref }

abbrev pub entry_valid : WhitelistEntry → Bool
entry_valid w = not (str_eq w.sender_ref "" || ltb 200 (len w.sender_ref) || ltb 80 (len w.label))

abbrev pub keep_entry : WhitelistEntry → List WhitelistEntry → List WhitelistEntry
keep_entry w seen = if seen_sender w.sender_ref seen then [] else w ∷ []

-- the loop; `seen` holds the entries that were kept before
unfoldable pub clean_entries :
    List WhitelistEntry → List WhitelistEntry → Result (List WhitelistEntry)
clean_entries seen [] = ok seen
clean_entries seen (v ∷ vs) =
    let w = trimmed v in
    let rest = clean_entries (seen ++ keep_entry w seen) vs in
    if entry_valid w then rest else err (failed "media quota whitelist entry is invalid")

unfoldable pub normalize_whitelist : List WhitelistEntry → Result (List WhitelistEntry)
normalize_whitelist values =
    if ltb max_media_quota_whitelist (length values)
    then err (failed "media quota whitelist has too many entries")
    else clean_entries [] values

abbrev pub limit_valid : ℤ → Bool
limit_valid n = not (ltb_ℤ n (pos 0) || ltb_ℤ (pos max_media_daily_limit) n)

unfoldable pub update_policy : Stamp → QuotaDb → ℤ → ℤ → Bool → List WhitelistEntry → Result QuotaDb
update_policy now db image_limit video_limit bypass whitelist = do
  guard (limit_valid image_limit && limit_valid video_limit)
      (failed "media daily limits must be between 0 and 100")
  entries ← normalize_whitelist whitelist
  ok (record db {
    config = record {
      image_daily_limit = pos_part image_limit;
      video_daily_limit = pos_part video_limit;
      trusted_admin_bypass = bypass;
      whitelist = entries;
      updated_at = now;
    };
  })

unfoldable pub whitelisted : String → List WhitelistEntry → Bool
whitelisted ref [] = false
whitelisted ref (w ∷ ws) =
    (not (str_eq ref "") && str_eq (trim_space w.sender_ref) ref) || whitelisted ref ws

unfoldable pub exempts : Config → String → Bool → Bool
exempts c sender is_admin =
    if is_admin && c.trusted_admin_bypass then true else whitelisted (trim_space sender) c.whitelist
