-- ===== src/Replies/Scenarios.antt =====
-- Runs of the segmentation of go/reply_segmentation.go.
use erdai_agent.Prelude.{◌≤◌, false, String, none, ◌≡◌, refl, [], ◌∷◌, length, All, pos}
use erdai_agent.Text.{trim_space, has_prefix, contains}
use erdai_agent.Text.Ink.{ink}
use erdai_agent.Replies.Segments.{
  SegmentPolicy, is_boundary, is_closing, pieces, keep_units, natural_reply_units, replace_crlf,
  lines, reply_has_formal_layout, bounded_reply_setting, pack, join, cap, split_reply_text,
}
use erdai_agent.Replies.Lossless.{split_reply_text-lossless}
use erdai_agent.Replies.Few.{Filled, split_reply_text-fits}

abbrev short_policy : SegmentPolicy
short_policy = record {
  segmented_reply_enabled = none;
  segment_min_chars = pos 1;
  segment_max_chars = pos 4;
  max_reply_segments = pos 3;
}

abbrev answer : String
answer = "好的。 明天见！（嗯？）再见"

split_test : split_reply_text (λ t. t) answer short_policy false ≡ "好的。" ∷ "明天见！" ∷ "（嗯？）再见" ∷ []
unfolding split_reply_text natural_reply_units pieces is_boundary is_closing keep_units replace_crlf
    lines reply_has_formal_layout bounded_reply_setting pack join cap trim_space has_prefix contains
split_test = refl

split_reply_text-lossless_example :
    ink (join (split_reply_text (λ t. t) answer short_policy false)) ≡ ink answer
split_reply_text-lossless_example = split_reply_text-lossless (λ t. t) answer short_policy false

split_reply_text-fits_example :
    (length (split_reply_text (λ t. t) answer short_policy false) ≤ 3)
    × (length (split_reply_text (λ t. t) answer short_policy false) ≤ 5)
    × All Filled (split_reply_text (λ t. t) answer short_policy false)
unfolding bounded_reply_setting
split_reply_text-fits_example = split_reply_text-fits (λ t. t) answer short_policy false
