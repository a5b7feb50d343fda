-- ===== src/Quota/Store.antt =====
-- The tables `media_quota_config` and `media_quota_usage` of go/media_quota.go.
use erdai_agent.Prelude.{
  ℕ, suc, ltb, Bool, true, false, ◌&&◌, if◌then◌else◌, String, str_eq, List, [], ◌∷◌,
}
use erdai_agent.Core.{Stamp}

-- `mediaKind`: a run asks for one of the two kinds
pub data Kind : Type 0 where
  image video : Kind

abbrev pub same_media : Kind → Kind → Bool
same_media image image = true
same_media video video = true
same_media _ _ = false

-- `mediaQuotaWhitelistEntry`
pub record WhitelistEntry : Type 0 where
  pub label : String
  pub sender_ref : String

-- the row of `media_quota_config`, and `mediaQuotaConfig`
pub record Config : Type 0 where
  pub image_daily_limit : ℕ
  pub video_daily_limit : ℕ
  pub trusted_admin_bypass : Bool
  pub whitelist : List WhitelistEntry
  pub updated_at : Stamp

-- CASE kind WHEN 'image' THEN image_daily_limit ELSE video_daily_limit END
abbrev pub limit : Config → Kind → ℕ
limit c image = c.image_daily_limit
limit c video = c.video_daily_limit

-- the primary key of `media_quota_usage`
pub record UsageKey : Type 0 where
  pub subject : String
  pub day : String
  pub kind : Kind

-- a row of `media_quota_usage`
pub record Usage : Type 0 where
  pub key : UsageKey
  pub used : ℕ
  pub reserved : ℕ
  pub updated_at : Stamp

pub record QuotaDb : Type 0 where
  pub config : Config
  pub usage : List Usage

abbrev pub same_usage : UsageKey → UsageKey → Bool
same_usage a b = str_eq a.subject b.subject && str_eq a.day b.day && same_media a.kind b.kind

-- the row that an operation may change: `reserved_count > 0`
abbrev pub active : UsageKey → Usage → Bool
active k u = same_usage u.key k && ltb 0 u.reserved

-- UPDATE media_quota_usage SET f WHERE test
unfoldable pub update_usage : (Usage → Bool) → (Usage → Usage) → List Usage → List Usage
update_usage test f [] = []
update_usage test f (u ∷ us) = (if test u then f u else u) ∷ update_usage test f us

unfoldable pub count_usage : (Usage → Bool) → List Usage → ℕ
count_usage test [] = 0
count_usage test (u ∷ us) = let rest = count_usage test us in if test u then suc rest else rest
