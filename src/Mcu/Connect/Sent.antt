-- ===== src/Mcu/Connect/Sent.antt =====
-- `SendConfig` with `BuildConfigPlan` of bootstrap.go: the commands a micro-controller is sent. The
-- callbacks that fill the lists have run; the checksum of the joined commands (Go's hash/crc32) is
-- a parameter, and so is the function that resolves pin names.
use klipper_go.Common.{
  ℕ, ◌≡◌, ◌≢◌, refl, ap, ◌∙◌, ◌==◌, ==_refl, if◌then◌else◌, Option, none, some, List, [], ◌∷◌, ◌++◌,
  arith,
}
use klipper_go.Mcu.Connect.{Message, crc_mismatch}

-- The two commands that the plan writes itself, with their number, and the others.
pub data Command (T : Type 0) : Type 0 where
  allocate_oids : ℕ → Command T
  finalize_config : ℕ → Command T
  other : T → Command T

pub record ConfigBuildPlan (T : Type 0) : Type 0 where
  pub config_cmds : List (Command T)
  pub restart_cmds : List (Command T)
  pub init_cmds : List (Command T)
  pub config_crc : ℕ

pub data Effect (T : Type 0) : Type 0 where
  commands_set : ConfigBuildPlan T → Effect T
  starting_handler_registered : Effect T
  sent : Command T → Effect T

module _ {T : Type 0} (checksum : List (Command T) → ℕ) (update_command : T → T) where
  unfoldable pub apply_update : List T → List (Command T)
  apply_update [] = []
  apply_update (c ∷ cs) = other (update_command c) ∷ apply_update cs

  unfoldable pub build_config_plan : ℕ → List T → List T → List T → ConfigBuildPlan T
  unfolding apply_update
  build_config_plan oid_count config restart init =
      let resolved = allocate_oids oid_count ∷ apply_update config in
      record {
        config_cmds = resolved ++ (finalize_config (checksum resolved) ∷ []);
        restart_cmds = apply_update restart;
        init_cmds = apply_update init;
        config_crc = checksum resolved;
      }

  unfoldable pub send_all : List (Command T) → List (Effect T)
  send_all [] = []
  send_all (c ∷ cs) = sent c ∷ send_all cs

  -- With the checksum that the micro-controller reports, or none when it has no configuration.
  unfoldable pub send_plan : ConfigBuildPlan T → Option ℕ → List (Effect T) × Option Message
  unfolding send_all
  send_plan plan none = (
    commands_set plan
        ∷ starting_handler_registered
        ∷ (send_all plan.config_cmds ++ send_all plan.init_cmds),
    none,
  )
  send_plan plan (some prev) =
      if plan.config_crc == prev
      then (
        commands_set plan
            ∷ starting_handler_registered
            ∷ (send_all plan.restart_cmds ++ send_all plan.init_cmds),
        none,
      )
      else (commands_set plan ∷ [], some crc_mismatch)

  unfoldable pub send_config :
      ℕ → List T → List T → List T → Option ℕ → List (Effect T) × Option Message
  unfolding build_config_plan send_plan
  send_config oid_count config restart init prev =
      send_plan (build_config_plan oid_count config restart init) prev

-- What the micro-controller keeps of the commands it gets: the number of its last finalize_config.
unfoldable pub finalized : {T : Type 0} → List (Effect T) → Option ℕ
finalized [] = none
finalized (sent (finalize_config c) ∷ es) =
    let later = finalized es in elim later [ none ↦ some c | some d ↦ some d ]
finalized (_ ∷ es) = finalized es

abbrev pub commands_sent : {T : Type 0} → List (Effect T) → List (Command T)
commands_sent [] = []
commands_sent (sent c ∷ es) = c ∷ commands_sent es
commands_sent (_ ∷ es) = commands_sent es

module _ {T : Type 0} (checksum : List (Command T) → ℕ) (update : T → T) where
  finalized-init :
      (cs : List T) → finalized (send_all checksum update (apply_update checksum update cs)) ≡ none
  unfolding finalized send_all apply_update
  finalized-init [] = refl
  finalized-init (c ∷ cs) = finalized-init cs

  finalized-config :
      (cs : List T) (prev : ℕ) (es : List (Effect T))
      → finalized es ≡ none
      → finalized (
          send_all checksum update (apply_update checksum update cs ++ (finalize_config prev ∷ []))
          ++ es)
        ≡ some prev
  unfolding finalized send_all apply_update
  finalized-config [] prev es h = rw h
  finalized-config (c ∷ cs) prev es h = finalized-config cs prev es h

  sent-all : (cs : List (Command T)) → commands_sent (send_all checksum update cs) ≡ cs
  unfolding send_all
  sent-all [] = refl
  sent-all (c ∷ cs) = ap (λ rest. c ∷ rest) (sent-all cs)

  sent-append :
      (cs : List (Command T)) (es : List (Effect T))
      → commands_sent (send_all checksum update cs ++ es) ≡ cs ++ commands_sent es
  unfolding send_all
  sent-append [] es = refl
  sent-append (c ∷ cs) es = ap (λ rest. c ∷ rest) (sent-append cs es)

  -- A configuration that was sent in full ends with its own checksum. Sent again to a controller
  -- that reports this checksum, the same configuration is accepted, and exactly its restart and init
  -- commands go out, in order; one with another checksum is refused, and no command goes out.
  pub send_config_again :
      (oid_count oid_count' : ℕ) (config config' restart init : List T)
      → checksum (allocate_oids oid_count' ∷ apply_update checksum update config')
        ≢ checksum (allocate_oids oid_count ∷ apply_update checksum update config)
      → let prev = checksum (allocate_oids oid_count ∷ apply_update checksum update config) in
        (finalized (send_config checksum update oid_count config restart init none).0 ≡ some prev)
        × ((send_config checksum update oid_count config restart init (some prev)).1 ≡ none)
        × (commands_sent (send_config checksum update oid_count config restart init (some prev)).0
            ≡ apply_update checksum update restart ++ apply_update checksum update init)
        × ((send_config checksum update oid_count' config' restart init (some prev)).1
            ≡ some crc_mismatch)
        × (commands_sent (send_config checksum update oid_count' config' restart init (some prev)).0
            ≡ [])
  unfolding send_config send_plan build_config_plan finalized
  send_config_again oid_count oid_count' config config' restart init apart =
      let prev = checksum (allocate_oids oid_count ∷ apply_update checksum update config) in
      let same = ==_refl prev in
      (
        finalized-config config prev (send_all checksum update (apply_update checksum update init))
            (finalized-init init),
        rw same,
        rw same (
            sent-append (apply_update checksum update restart)
              (send_all checksum update (apply_update checksum update init))
            ∙ ap (λ rest. apply_update checksum update restart ++ rest)
                (sent-all (apply_update checksum update init))),
        ground arith,
        ground arith,
      )
