-- ===== src/Tests/Moving.antt =====
-- A client that leaves while a frame is written to it, and one that comes before the frame's end and
-- takes only a part of it.
use desert_addon_uwapp_net.Common.{ℕ, arith, refl, List, [], ◌∷◌}
use desert_addon_uwapp_net.Sharing.{
  checked, Link, unconnected, cleared, accept_client, write_client, abandon_client, chunk_of,
  advance, cuts, Moves, unmoved, then_move, accepts, closes, clears, begins, writes,
}
use desert_addon_uwapp_net.Sharing.Framing.{Framed, Moves-Framed}

abbrev word : List ℕ
word = b'h' ∷ b'i' ∷ []

abbrev first_served : Link
unfolding accept_client
first_served = accept_client unconnected

abbrev half_written : Link
half_written = write_client (record first_served { sender = checked word })

abbrev second_served : Link
second_served = accept_client (record half_written { place = cleared })

abbrev written : Link
written = abandon_client 1 (write_client second_served)

leaving : Moves unconnected written
unfolding accept_client write_client abandon_client chunk_of advance
leaving =
    then_move
      (then_move
        (then_move
          (then_move
            (then_move
              (then_move (then_move (then_move unmoved (accepts refl)) (begins word refl (λ q. cc)))
                (writes (λ q. cc) refl))
              (closes refl))
            (clears refl))
          (accepts refl))
        (writes (λ q. cc) refl))
      (cuts 1 (λ q. cc) refl (omega arith))

Moves-Framed_example : Framed written
Moves-Framed_example = Moves-Framed leaving
