-- ===== src/Tests/Handover.antt =====
-- The restart under Sentinel: a linked master and a stale replica.
use wellcake.Common.{◌≡◌, refl, [], ◌∷◌, ◌++◌, codes, Bytes, some, eqb, is_empty}
use wellcake.Handover.{sentinel_handover_timings, hand_over_master}
use wellcake.Handover.Run.{
  drive_sentinel_rollout, sentinel_data_master, only_master, is_reachable_primary,
}
use wellcake.Handover.Pause.{IsLifted, hand_over_master-IsLifted}
use wellcake.Handover.Planes.{PlaneStep, drive_sentinel_rollout_steps}
use wellcake.Naming.{pod_name}
use wellcake.Info.{role_master}
use wellcake.Runtime.{Env}
use wellcake.Runtime.Emits.{Extends}
use wellcake.Tests.Samples.{demo, fresh, sample_pod}
use wellcake.Tests.Shards.{rolling}

abbrev crlf : Bytes
crlf = 13 ∷ 10 ∷ []

-- INFO replication of a master with one replica, which has all of its writes.
abbrev linked_master : Bytes
linked_master =
    codes "role:master"
    ++ (crlf
        ++ (codes "connected_slaves:1"
            ++ (crlf
                ++ (codes "slave0:ip=10.0.0.2,port=6379,state=online,offset=5,lag=0"
                    ++ (crlf ++ codes "master_repl_offset:5")))))

abbrev pub linked : Env
linked = record rolling { reply = λ h host c. some linked_master }

-- Two pods that claim to be the master are none.
two_masters :
    sentinel_data_master demo (sample_pod 0 role_master 5 1 ∷ sample_pod 1 role_master 5 1 ∷ [])
    ≡ []
unfolding sentinel_data_master only_master is_reachable_primary eqb is_empty pod_name
two_masters = refl

hand_over_master-IsLifted_example :
    IsLifted linked
      (codes "m")
      fresh
      (hand_over_master linked sentinel_handover_timings
        (codes "pw")
        (codes "m")
        (codes "r" ∷ [])
        6379
        fresh).1
hand_over_master-IsLifted_example =
    hand_over_master-IsLifted linked sentinel_handover_timings (codes "pw") (codes "m")
      (codes "r" ∷ []) 6379 fresh

drive_sentinel_rollout_steps_example :
    Extends
      (PlaneStep linked (codes "pw") fresh)
      fresh.effects
      (drive_sentinel_rollout linked (codes "pw") fresh).1.effects
drive_sentinel_rollout_steps_example = drive_sentinel_rollout_steps linked (codes "pw") fresh
