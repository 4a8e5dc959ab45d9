-- ===== src/AppNet/Averages.antt =====
-- uwAppNet_module.cpp: the running sums of trip times and throughput, and the figures that the Tcl
-- commands report from them.
use desert_addon_uwapp_net.Common.{ℕ, ◌^◌, Bool, ◌&&◌, ltb, ◌==◌, if◌then◌else◌, not, add32, sub32}
use desert_addon_uwapp_net.Sim.{Sim}
use desert_addon_uwapp_net.AppNet.{AppNet}

-- `w > k` for an `int` w and a small constant k
abbrev pub gt_int : ℕ → ℕ → Bool
gt_int w k = ltb k w && ltb w (2 ^ 31)

module _ (sim : Sim) where
  open sim use {
    Double, zero_double, one_double, add, sub, mul, div, sqrt, is_positive, is_zero, of_int,
    of_uint32,
  }

  unfoldable pub update_rtt : Double → AppNet Double → AppNet Double
  update_rtt rtt n = record n {
    sumrtt = add n.sumrtt rtt;
    sumrtt2 = add n.sumrtt2 (mul rtt rtt);
    rttsamples = add32 n.rttsamples 1;
  }

  unfoldable pub update_ftt : Double → AppNet Double → AppNet Double
  update_ftt ftt n = record n {
    sumftt = add n.sumftt ftt;
    sumftt2 = add n.sumftt2 (mul ftt ftt);
    fttsamples = add32 n.fttsamples 1;
  }

  unfoldable pub update_throughput : ℕ → Double → AppNet Double → AppNet Double
  update_throughput bytes dt n = record n {
    sumbytes = add n.sumbytes (of_int bytes);
    sumdt = add n.sumdt dt;
  }

  unfoldable pub get_rtt : AppNet Double → Double
  get_rtt n = if gt_int n.rttsamples 0 then div n.sumrtt (of_int n.rttsamples) else zero_double

  -- (sum of squares - sum * sum / samples) / (samples - 1)
  unfoldable pub sample_variance : Double → Double → ℕ → Double
  sample_variance sum sum2 samples =
      div (sub sum2 (div (mul sum sum) (of_int samples))) (of_int (sub32 samples 1))

  unfoldable pub get_rtt_std : AppNet Double → Double
  get_rtt_std n =
      if gt_int n.rttsamples 1
      then sqrt (sample_variance n.sumrtt n.sumrtt2 n.rttsamples)
      else zero_double

  unfoldable pub get_ftt : AppNet Double → Double
  get_ftt n = if gt_int n.fttsamples 0 then div n.sumftt (of_int n.fttsamples) else zero_double

  unfoldable pub get_ftt_std : AppNet Double → Double
  get_ftt_std n =
      let var = sample_variance n.sumftt n.sumftt2 n.fttsamples in
      if gt_int n.fttsamples 1
      then (if is_positive var then sqrt var else zero_double)
      else zero_double

  unfoldable pub get_per : AppNet Double → Double
  get_per n =
      if not (n.drop_out_of_order == 0)
      then (if gt_int (add32 n.pkts_recv n.pkts_lost) 0
          then div (of_int n.pkts_lost) (of_int (add32 n.pkts_recv n.pkts_lost))
          else zero_double)
      else (if ltb 1 n.esn
          then sub one_double (div (of_int n.pkts_recv) (of_uint32 (sub32 n.esn 1)))
          else zero_double)

  unfoldable pub get_thr : AppNet Double → Double
  get_thr n = if not (is_zero n.sumdt) then div (mul n.sumbytes (of_int 8)) n.sumdt else zero_double
