-- ===== src/Tests/Receiving.antt =====
-- A receiver at five arrivals, one out of order and one repeated.
use Prim.Native.Nat.{ℕ, ◌+◌, ◌%◌, ◌^◌}
use desert_addon_uwapp_net.Common.{◌≡◌, ◌↔◌, refl, none, some, List, [], ◌∷◌, map, arith, All}
use desert_addon_uwapp_net.Packet.{Packet}
use desert_addon_uwapp_net.AppNet.{AppNet, construct}
use desert_addon_uwapp_net.AppNet.Averages.{get_rtt, get_rtt_std}
use desert_addon_uwapp_net.AppNet.Receive.{count, count_all}
use desert_addon_uwapp_net.AppNet.Accounting.{
  HasSn16, IsBalanced, tally, tally-count_all, count_all-IsBalanced,
}
use desert_addon_uwapp_net.AppNet.Order.{
  maxima, application_sns, sn_of, IsInOrder, construct-IsInOrder, receiver_refines_maxima,
}
use desert_addon_uwapp_net.AppNet.Faults.{
  HasUsableSn, HasUsableSn-HasSn16, count-faults_iff, count_all-total,
}
use desert_addon_uwapp_net.AppNet.Trips.{Delivered, count_all-Delivered, get_rtt-dead}
use desert_addon_uwapp_net.AppNet.Unordered.{application_packets, count_all-unordered}
use desert_addon_uwapp_net.AppNet.Sequence.{count_all-exhausted}
use desert_addon_uwapp_net.Tests.Fixtures.{whole, settings, numbered}

abbrev arrivals : List (ℕ × Packet ℕ)
arrivals =
    (10, numbered 2)
    ∷ (11, numbered 5)
    ∷ (12, numbered 3)
    ∷ (13, numbered 5)
    ∷ (14, numbered 6)
    ∷ []

abbrev fresh : AppNet ℕ
fresh = construct whole settings

usable : All HasUsableSn arrivals
usable = omega arith

abbrev in_sn16 : All HasSn16 arrivals
in_sn16 = HasUsableSn-HasSn16 arrivals usable

-- what the receiver comes to, and the packets that pass
abbrev ran : (r : AppNet ℕ × List (Packet ℕ)) × (count_all whole arrivals fresh ≡ some r)
ran = count_all-total whole arrivals fresh usable

fresh-IsInOrder : IsInOrder fresh
fresh-IsInOrder = construct-IsInOrder whole settings refl

fresh-IsBalanced : IsBalanced fresh
unfolding construct
fresh-IsBalanced = omega arith

receiver_refines_maxima_example :
    (n' : AppNet ℕ) × (passed : List (Packet ℕ)) × (count_all whole arrivals
        (construct whole settings)
      ≡ some (n', passed))
    × (map sn_of passed ≡ maxima 0 (application_sns whole arrivals))
receiver_refines_maxima_example = receiver_refines_maxima whole settings arrivals refl usable

maxima_of_arrivals : maxima 0 (application_sns whole arrivals) ≡ 2 ∷ 5 ∷ 6 ∷ []
unfolding maxima application_sns
maxima_of_arrivals = refl

count_all-IsBalanced_example : IsBalanced ran.0.0
count_all-IsBalanced_example =
    count_all-IsBalanced whole arrivals fresh in_sn16 fresh-IsBalanced ran.1

tally-count_all_example : tally ran.0.0 % 2 ^ 32 ≡ (tally fresh + 5) % 2 ^ 32
tally-count_all_example = tally-count_all whole arrivals fresh ran.1

count_all-Delivered_example : Delivered whole fresh ran.0.1 ran.0.0
count_all-Delivered_example = count_all-Delivered whole arrivals fresh ran.1

get_rtt-dead_example : (get_rtt whole ran.0.0 ≡ 0) × (get_rtt_std whole ran.0.0 ≡ 0)
get_rtt-dead_example = get_rtt-dead whole settings arrivals ran.1

-- The last `uint16_t` is outside the array, also at a fresh module.
count-faults_iff_example :
    (count whole 10 (numbered 65535) fresh ≡ none) ↔ ((◌≡◌ {A = ℕ} 7 7) × (◌≡◌ {A = ℕ} 65535 65535))
count-faults_iff_example = count-faults_iff whole 10 (numbered 65535) fresh (omega arith)

-- a receiver at the end of the numbers
abbrev last : AppNet ℕ
last = record (construct whole settings) { hrsn = 65534 }

last-IsInOrder : IsInOrder last
unfolding construct
last-IsInOrder = record { dropping = refl; in_range = omega arith; marked_le = λ i m. absurd (cc) }

abbrev ran_last : (r : AppNet ℕ × List (Packet ℕ)) × (count_all whole arrivals last ≡ some r)
ran_last = count_all-total whole arrivals last usable

count_all-exhausted_example : ran_last.0.1 ≡ []
count_all-exhausted_example =
    count_all-exhausted whole arrivals last last-IsInOrder refl usable ran_last.1

-- a receiver that does not drop
abbrev lenient : AppNet ℕ
lenient = record (construct whole settings) { drop_out_of_order = 0 }

abbrev ran_lenient : (r : AppNet ℕ × List (Packet ℕ)) × (count_all whole arrivals lenient ≡ some r)
ran_lenient = count_all-total whole arrivals lenient usable

count_all-unordered_example :
    (ran_lenient.0.1 ≡ application_packets whole arrivals)
    × (ran_lenient.0.0.pkts_lost ≡ lenient.pkts_lost)
    × (ran_lenient.0.0.pkts_ooseq ≡ lenient.pkts_ooseq)
count_all-unordered_example = count_all-unordered whole arrivals lenient (omega arith) ran_lenient.1
