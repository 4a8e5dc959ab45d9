-- ===== src/AppNet/Reports.antt =====
-- What the module reports, from the packets that have arrived.
use desert_addon_uwapp_net.Common.{
  ◌+◌, ◌-◌, ◌≤◌, ◌<◌, ◌≡◌, ◌^◌, ◌%◌, List, [], ◌∷◌, map, if◌then◌else◌, length,
}
use mathlib.Core.List.{foldl}
use desert_addon_uwapp_net.Sim.{Sim}
use desert_addon_uwapp_net.Packet.{Packet}
use desert_addon_uwapp_net.AppNet.{AppNet}
use desert_addon_uwapp_net.AppNet.Totals.{Totals, trip, bytes_of, last_sn}

module _ (sim : Sim) where
  open sim use {Double, zero_double, add, sub, mul, div, sqrt, of_int, is_zero, is_positive}

  abbrev pub total : Double → List Double → Double
  total start xs = foldl add start xs

  -- the times between successive arrivals
  abbrev pub gaps : Double → List (Double × Packet Double) → List Double
  gaps last [] = []
  gaps last ((now, p) ∷ rest) = sub now last ∷ gaps now rest

  abbrev pub square : Double → Double
  square x = mul x x

  -- the reports on a list of packets that were let through, with their times
  abbrev pub mean_trip : List (Double × Packet Double) → Double
  mean_trip [] = zero_double
  mean_trip (a ∷ rest) =
      div (total zero_double (map (trip sim) (a ∷ rest))) (of_int (length (a ∷ rest)))

  -- the deviation of the trip times, from the sum of their squares
  abbrev pub deviation : List (Double × Packet Double) → Double
  deviation [] = zero_double
  deviation (a ∷ []) = zero_double
  deviation (a ∷ c ∷ rest) =
      let trips = map (trip sim) (a ∷ c ∷ rest) in
      let sum = total zero_double trips in
      let count = length (a ∷ c ∷ rest) in
      let var =
        div (sub (total zero_double (map square trips)) (div (mul sum sum) (of_int count)))
          (of_int (count - 1)) in
      if is_positive var then sqrt var else zero_double

  abbrev pub throughput : List (Double × Packet Double) → Double
  throughput taken =
      let span = total zero_double (gaps zero_double taken) in
      if is_zero span
      then zero_double
      else div (mul (total zero_double (map (bytes_of sim) taken)) (of_int 8)) span

  -- of the numbers up to the last one, the share that did not come
  abbrev pub error_rate : List (Double × Packet Double) → Double
  error_rate [] = zero_double
  error_rate (a ∷ rest) =
      let last = last_sn sim 0 (a ∷ rest) in div (of_int (last - length (a ∷ rest))) (of_int last)

  -- The components of a fold of arrivals.
  record Sums (t : Totals Double) (taken : List (Double × Packet Double)) (u : Totals Double)
      : Type 0 where
    ftt : u.ftt ≡ total t.ftt (map (trip sim) taken)
    ftt2 : u.ftt2 ≡ total t.ftt2 (map square (map (trip sim) taken))
    bytes : u.bytes ≡ total t.bytes (map (bytes_of sim) taken)
    dt : u.dt ≡ total t.dt (gaps t.last taken)
    received : u.received % 2 ^ 32 ≡ (t.received + length taken) % 2 ^ 32
    samples : t.samples ≡ t.received → u.samples ≡ u.received

  -- the counts, as exact numbers
  record Exact (n : AppNet Double) (taken : List (Double × Packet Double)) : Type 0 where
    received : n.pkts_recv ≡ length taken
    sampled : n.fttsamples ≡ length taken
    lost : n.pkts_lost ≡ last_sn sim 0 taken - length taken
    room : length taken ≤ last_sn sim 0 taken
    small : last_sn sim 0 taken < 2 ^ 16
    dropping : n.drop_out_of_order ≡ 1
