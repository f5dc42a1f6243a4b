-- ===== src/Filament/Tests.antt =====
-- The theorems on the changer's frames at concrete inputs.
use klipper_go.Common.{ℕ, ◌≡◌, List, [], ◌∷◌, ◌++◌, arith}
use klipper_go.Filament.Framing.{frame, read_frame, payload}
use klipper_go.Filament.Framing.Resync.{read_frame-frame}

-- The text {"id":0}.
abbrev json : List ℕ
json = 0x7b ∷ 0x22 ∷ 0x69 ∷ 0x64 ∷ 0x22 ∷ 0x3a ∷ 0x30 ∷ 0x7d ∷ []

read_frame-frame_example :
    read_frame ((0xaa ∷ 0xfe ∷ []) ++ (frame json ++ (0xff ∷ 0xaa ∷ 1 ∷ [])))
    ≡ (0xff ∷ 0xaa ∷ 1 ∷ [], payload json)
read_frame-frame_example =
    read_frame-frame (0xaa ∷ 0xfe ∷ []) json (0xff ∷ 0xaa ∷ 1 ∷ [])
      (λ e. absurd (omega (arith, e)), (λ e. absurd (omega (arith, e)), tt)) (omega arith)
      (omega arith)
