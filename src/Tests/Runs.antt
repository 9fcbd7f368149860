-- ===== src/Tests/Runs.antt =====
-- Sequences of calls of the engine from its start on.
use ntfw.Common.{◌≡◌, ◌≤◌, ◌<◌, arith, refl, [], ◌∷◌, List, bswap16}
use ntfw.Flow.{sig_data, mask_sig, rule_hashfn, sig_of_data}
use ntfw.Rules.{rule_lookup, hash_flowsig}
use ntfw.State.{ctrl_at}
use ntfw.Host.{
  probe_bucket, movemask_eq, tzcnt, host_lookup, host_fetch_bucket, inet_hashfn, acquire, release,
  host_insert_authorized, insert_authorized_locked, insert_new_authorized, allocate,
  fill_authorized, write_entry, host_pool_grow,
}
use ntfw.Host.Slots.{key_at, pri_at}
use ntfw.Engine.{ntfe_tx, tx_private, tx_sig}
use ntfw.Config.{ntfe_init, ntfe_configure}
use ntfw.Run.{Call, tx, rx, run, call, started}
use ntfw.Run.Pool.{run-PoolFits}
use ntfw.Run.Kept.{run-kept, configure-kept}
use ntfw.Run.Origin.{run-origin, Named}
use ntfw.Tests.Configure.{image, image_small}
use ntfw.Tests.Frames.{segment, quiet, segment-IsFrame}

-- Host 11 sends to host 99, which answers.
abbrev sending : List Call
sending = tx 0 (segment 11 99 (bswap16 80)) ∷ []

abbrev answering : List Call
answering = rx quiet 0 (segment 99 11 (bswap16 22)) 54 ∷ []

sent_key : key_at ((run sending (started 1)).host_tbl (host_fetch_bucket 99)) 0 ≡ 99
unfolding run call ntfe_tx tx_private tx_sig sig_data mask_sig rule_hashfn sig_of_data rule_lookup
    hash_flowsig probe_bucket movemask_eq tzcnt host_lookup host_fetch_bucket inet_hashfn acquire
    release host_insert_authorized insert_authorized_locked insert_new_authorized allocate
    fill_authorized write_entry ntfe_init host_pool_grow
sent_key = refl

sent_pri : pri_at ((run sending (started 1)).host_tbl (host_fetch_bucket 99)) 0 ≡ 1
unfolding run call ntfe_tx tx_private tx_sig sig_data mask_sig rule_hashfn sig_of_data rule_lookup
    hash_flowsig probe_bucket movemask_eq tzcnt host_lookup host_fetch_bucket inet_hashfn acquire
    release host_insert_authorized insert_authorized_locked insert_new_authorized allocate
    fill_authorized write_entry ntfe_init host_pool_grow
sent_pri = refl

run-PoolFits_example :
    (ctrl_at ((run sending (started 1)).host_tbl (host_fetch_bucket 99)) 0).ptr
    < (run sending (started 1)).hp_true_sz
run-PoolFits_example =
    run-PoolFits 1 sending (tt, tt) (tt, tt) (omega arith) (host_fetch_bucket 99) 0

run-kept_example :
    let gs = run sending (started 1) in
    let gs' = run answering gs in
    let b = host_fetch_bucket 99 in
    (key_at (gs'.host_tbl b) 0 ≡ key_at (gs.host_tbl b) 0)
    × (pri_at (gs.host_tbl b) 0 ≤ pri_at (gs'.host_tbl b) 0)
run-kept_example =
    run-kept 1 sending answering (tt, tt) (segment-IsFrame, tt) (host_fetch_bucket 99) 0
      (omega (arith, sent_key)) (omega (arith, sent_pri))

configure-kept_example :
    let gs = run sending (started 1) in
    let gs' = (ntfe_configure 0 image 142 gs).1 in
    let b = host_fetch_bucket 99 in
    (key_at (gs'.host_tbl b) 0 ≡ key_at (gs.host_tbl b) 0)
    × (pri_at (gs.host_tbl b) 0 ≤ pri_at (gs'.host_tbl b) 0)
configure-kept_example =
    configure-kept 1 sending 0 image 142 (tt, tt) (image_small, (tt, tt)) (host_fetch_bucket 99) 0
      (omega (arith, sent_key)) (omega (arith, sent_pri)) (omega (arith, sent_pri))

run-origin_example :
    Named sending (key_at ((run sending (started 1)).host_tbl (host_fetch_bucket 99)) 0)
run-origin_example =
    run-origin 1 sending (tt, tt) (tt, tt) (host_fetch_bucket 99) 0 (omega (arith, sent_key))
      (omega (arith, sent_pri))
