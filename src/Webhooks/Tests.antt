-- ===== src/Webhooks/Tests.antt =====
-- Remote methods with three connections.
use Prim.Native.String.{String}
use klipper_go.Common.{none, List, [], ◌∷◌, ◌==◌, ltb, if◌then◌else◌, ◌≡◌}
use klipper_go.Webhooks.Remote.{call_remote_method}
use klipper_go.Webhooks.Remote.Entries.{template_of}
use klipper_go.Webhooks.Remote.Table.{
  Use, registers, calls, use_registry, use_table, IsAnswered, sent_as_registered,
}

-- 3 registers twice, 4 is closed at the first call.
abbrev some_uses : List (Use String)
some_uses =
    registers "notify" 3 "a"
    ∷ registers "notify" 4 "b"
    ∷ registers "list" 4 "c"
    ∷ calls "notify" (λ c. c == 4)
    ∷ registers "notify" 3 "d"
    ∷ registers "notify" 5 "e"
    ∷ []

sent_as_registered_example :
    let (after, sent, error) =
      call_remote_method "notify" (λ c. ltb 4 c) (use_registry some_uses []) in
    (template_of 3 sent ≡ (if ltb 4 3 then none else use_table some_uses (λ m c. none) "notify" 3))
    × IsAnswered sent error
sent_as_registered_example = sent_as_registered some_uses "notify" (λ c. ltb 4 c) 3
