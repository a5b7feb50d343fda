-- ===== src/Wechat/Scenarios.antt =====
-- Runs of the frame of go/wechat_crypto.go.
use erdai_agent.Prelude.{◌≡◌, refl, arith, [], ◌∷◌, replicate}
use erdai_agent.Core.{ok}
use erdai_agent.Wechat.Frame.{frame, open_frame}
use erdai_agent.Wechat.RoundTrip.{open_frame-frame}

open_frame-frame_example :
    open_frame (7 ∷ 8 ∷ []) (frame (replicate 16 9) (7 ∷ 8 ∷ []) (1 ∷ 2 ∷ 3 ∷ []))
    ≡ ok (1 ∷ 2 ∷ 3 ∷ [])
open_frame-frame_example =
    open_frame-frame (replicate 16 9) (7 ∷ 8 ∷ []) (1 ∷ 2 ∷ 3 ∷ []) refl (omega arith)
