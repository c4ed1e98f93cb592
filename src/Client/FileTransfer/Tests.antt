-- ===== src/Client/FileTransfer/Tests.antt =====
-- The properties of file transfer at concrete disks, and the tests of file_transfer.rs.
use mathlib.Core.Option
use visuara.Control.{file}
use visuara.Prelude.{
  ◌≡◌, refl, arith, true, false, none, some, List, [], ◌∷◌, map, str_eq, filter, split, decimal,
  if◌then◌else◌,
}
use visuara.Control.{FileTransferMessage, offer, complete, cancel, chunk, file}
use visuara.Client.Paths.{join, path_file_name, stem_and_extension, rsplit_dot}
use visuara.Client.Disk.{
  directory, file_at, Disk, exists, read, create, write_all, overwrite, remove_file,
}
use visuara.Client.FileTransfer.{
  FileReceiver, numbered, send_file, send_each, file_messages, chunk_messages, chunks, try_numbered,
  on_chunk, on_cancel, receive, handle, on_offer, unique_destination_path,
}
use visuara.Client.FileTransfer.Effects.{transfer_of, FindsFree}
use visuara.Client.FileTransfer.Soundness.{IsSound, AllFree, receive-IsSound}
use visuara.Client.FileTransfer.Aside.{receive-untouched}
use visuara.Client.FileTransfer.Received.{of_transfer}
use visuara.Client.FileTransfer.Pieces.{get_elem?, expected, send_file-expected}
use visuara.Client.FileTransfer.RoundTrip.{receive-send_file}
use visuara.Client.FileTransfer.Names.{on_offer-absolute}

-- A disk with a directory and a file in it.
abbrev one_file : Disk
one_file = record {
  resolve = λ p. p;
  names = λ q.
      if str_eq q "/in"
      then some directory
      else if str_eq q "/in/a.txt"
      then some (file_at 0)
      else none;
  contents = λ i. 7 ∷ [];
  next = 1;
  failures = [];
}

abbrev new_receiver : FileReceiver
new_receiver = record { dest_dir = "/in"; in_progress = λ t. none; disk = one_file }

takes_a_number : unique_destination_path one_file "/in" "a.txt" ≡ "/in/a (1).txt"
unfolding unique_destination_path exists join try_numbered numbered path_file_name filter split
    stem_and_extension rsplit_dot decimal
takes_a_number = refl

numbers_the_stem : numbered ".x/b.tar.gz/" 12 ≡ "b.tar (12).gz"
unfolding numbered path_file_name filter split stem_and_extension rsplit_dot decimal
numbers_the_stem = refl

-- Another transfer comes between the messages of the file.
abbrev traffic : List FileTransferMessage
traffic =
    offer "u" "b" 1
    ∷ chunk "t" 0 (104 ∷ 105 ∷ [])
    ∷ chunk "u" 0 (9 ∷ [])
    ∷ complete "t"
    ∷ cancel "u"
    ∷ []

abbrev greeting : List FileTransferMessage
greeting = offer "t" "a.txt" 2 ∷ chunk "t" 0 (104 ∷ 105 ∷ []) ∷ complete "t" ∷ []

greeting_sent : send_file (some (104 ∷ 105 ∷ [])) "/home/a.txt" "t" [] ≡ (map file greeting, true)
unfolding send_file send_each file_messages path_file_name chunk_messages filter chunks split
greeting_sent = refl

arrives :
    read (receive (offer "t" "a.txt" 2 ∷ traffic) new_receiver).disk "/in/a (1).txt"
    ≡ some (104 ∷ 105 ∷ [])
unfolding receive read handle on_offer on_chunk on_cancel create write_all overwrite remove_file
    unique_destination_path exists join try_numbered numbered path_file_name filter split
    stem_and_extension rsplit_dot decimal
arrives = refl

new_receiver-IsSound : IsSound new_receiver
new_receiver-IsSound = record {
  below = λ q i e. ground arith;
  held = λ u f e. absurd (ground arith);
  apart = λ u v f g differ e e'. absurd (ground arith);
}

transfers : filter (of_transfer "t") (offer "t" "a.txt" 2 ∷ traffic) ≡ greeting
unfolding filter transfer_of
transfers = refl

traffic_free : AllFree (offer "t" "a.txt" 2 ∷ traffic) new_receiver
unfolding FindsFree handle on_offer on_chunk on_cancel create write_all overwrite remove_file
    unique_destination_path exists join try_numbered numbered path_file_name filter split
    stem_and_extension rsplit_dot decimal
traffic_free = (refl, (refl, (tt, (tt, (tt, (tt, tt))))))

receive-IsSound_example : IsSound (receive (offer "t" "a.txt" 2 ∷ traffic) new_receiver)
receive-IsSound_example =
    receive-IsSound (offer "t" "a.txt" 2 ∷ traffic) new_receiver traffic_free new_receiver-IsSound

old_file : read one_file "/in/a.txt" ≡ some (7 ∷ [])
unfolding read
old_file = refl

receive-untouched_example :
    read (receive (offer "t" "a.txt" 2 ∷ traffic) new_receiver).disk "/in/a.txt" ≡ some (7 ∷ [])
receive-untouched_example =
    receive-untouched (offer "t" "a.txt" 2 ∷ traffic) new_receiver "/in/a.txt" (7 ∷ [])
      new_receiver-IsSound traffic_free old_file (λ u f e. absurd (ground arith))

send_file-expected_example :
    get_elem? (send_file (some (104 ∷ 105 ∷ [])) "/home/a.txt" "t" (true ∷ true ∷ false ∷ [])).0 1
    ≡ Option.map file (expected "t" "/home/a.txt" (104 ∷ 105 ∷ []) 1)
send_file-expected_example =
    send_file-expected (104 ∷ 105 ∷ []) "/home/a.txt" "t" (true ∷ true ∷ false ∷ []) 1

receive-send_file_example :
    read
      (receive (offer "t" "a.txt" 2 ∷ traffic) new_receiver).disk
      (unique_destination_path one_file "/in" "a.txt")
    ≡ some (104 ∷ 105 ∷ [])
receive-send_file_example =
    receive-send_file (104 ∷ 105 ∷ []) "/home/a.txt" "t" [] greeting "a.txt" 2 traffic new_receiver
      greeting_sent transfers new_receiver-IsSound refl traffic_free

nothing_there : exists one_file "/etc/cron.d/x" ≡ false
unfolding exists
nothing_there = refl

on_offer-absolute_example :
    read (on_offer "t" "/etc/cron.d/x" new_receiver).1.disk "/etc/cron.d/x" ≡ some []
on_offer-absolute_example =
    on_offer-absolute "t" "/etc/cron.d/x" new_receiver refl nothing_there refl
