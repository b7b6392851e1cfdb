-- ===== src/Bans/Examples.antt =====
-- The theorems on masks at a concrete channel, and runs of the handlers.
use denora.Prelude.{◌≡◌, ◌++◌, refl, some, none, true, false, [], ◌∷◌, codes, arith}
use denora.Bans.Masks.{MaskArray, stricmp_slot}
use denora.Bans.Queries.{
  Sql, select, insert, chan_except, Channel, sql_channel_ban, sql_channel_exception,
  sql_channel_invite, sql_channel_quiet,
}
use denora.Bans.{
  done, fault, add_ban, add_exception, add_invite, add_quiet, del_ban, del_exception, del_invite,
  del_quiet,
}
use denora.Bans.Adding.{contents, IsValid, IsValidChannel, made, Appends, add_masks-Appends}
use denora.Bans.Deleting.{erase_first, is_mask, del_ban-erase_first}
use denora.Bans.Shifting.{any}
use denora.Bans.Erasing.{Erases, del_masks-Erases, del_exception-fault}

abbrev db : Sql
db = record { large_net = false; do_sql = true; quote = λ s. s; rows = λ q. some 0 }

abbrev two_masks : MaskArray
two_masks = record {
  count = 2;
  size = 8;
  slots = some (codes "a!*") ∷ some (codes "B!*") ∷ none ∷ none ∷ none ∷ none ∷ none ∷ none ∷ [];
}

abbrev eight_masks : MaskArray
eight_masks = record {
  count = 8;
  size = 8;
  slots =
      some (codes "a")
      ∷ some (codes "b")
      ∷ some (codes "c")
      ∷ some (codes "d")
      ∷ some (codes "e")
      ∷ some (codes "f")
      ∷ some (codes "g")
      ∷ some (codes "h")
      ∷ [];
}

abbrev channel : Channel
channel = record {
  name = codes "#c";
  sqlchan = codes "#c";
  bans = two_masks;
  excepts = two_masks;
  invite = two_masks;
  quiet = two_masks;
  limit = 0;
  rejoinlock = 0;
  nickchgflood = none;
  key = none;
  redirect = none;
  flood = none;
  flood_alt = none;
  modes = [];
  creation_time = 0;
  topic = none;
  topic_setter = [];
  topic_time = 0;
  users = [];
  stats = 0;
  statservon = false;
}

abbrev crowded : Channel
crowded = record channel { excepts = eight_masks }

two_masks-IsValid : IsValid two_masks
two_masks-IsValid = record { fits = omega arith; allocated = refl; by_eight = refl }

channel-IsValidChannel : IsValidChannel channel
channel-IsValidChannel = record {
  bans = two_masks-IsValid;
  excepts = two_masks-IsValid;
  invite = two_masks-IsValid;
  quiet = two_masks-IsValid;
}

crowded-IsValidChannel : IsValidChannel crowded
crowded-IsValidChannel = record {
  bans = two_masks-IsValid;
  excepts = record { fits = omega arith; allocated = refl; by_eight = refl };
  invite = two_masks-IsValid;
  quiet = two_masks-IsValid;
}

ninth_mask :
    add_exception db (some crowded) (some (codes "i"))
    ≡ done
        (record crowded {
          excepts = record {
            count = 9;
            size = 16;
            slots =
                eight_masks.slots
                ++ (some (codes "i") ∷ none ∷ none ∷ none ∷ none ∷ none ∷ none ∷ none ∷ []);
          };
        })
        (select chan_except (codes "#c") (codes "i")
          ∷ insert chan_except (codes "#c") (codes "i")
          ∷ [])
unfolding add_exception
ninth_mask = refl

add_masks-Appends_example :
    Appends
      (λ a. record channel { bans = a })
      two_masks
      (some (codes "x"))
      (made db channel channel-IsValidChannel (sql_channel_ban db 1 channel (some (codes "x"))))
      (add_ban db (some channel) (some (codes "x")))
    × Appends
        (λ a. record channel { excepts = a })
        two_masks
        (some (codes "x"))
        (made db channel channel-IsValidChannel
          (sql_channel_exception db 1 channel (some (codes "x"))))
        (add_exception db (some channel) (some (codes "x")))
    × Appends
        (λ a. record channel { invite = a })
        two_masks
        (some (codes "x"))
        (made db channel channel-IsValidChannel
          (sql_channel_invite db 1 channel (some (codes "x"))))
        (add_invite db (some channel) (some (codes "x")))
    × Appends
        (λ a. record channel { quiet = a })
        two_masks
        (some (codes "x"))
        (made db channel channel-IsValidChannel (sql_channel_quiet db 1 channel (some (codes "x"))))
        (add_quiet db (some channel) (some (codes "x")))
add_masks-Appends_example = add_masks-Appends db channel channel-IsValidChannel (codes "x")

del_ban-erase_first_example :
    (a' : MaskArray) × (del_ban db (some channel) (some (codes "B!*"))
      ≡ done
          (record channel { bans = a' })
          (made db channel channel-IsValidChannel
            (sql_channel_ban db 2 channel (some (codes "B!*")))))
    × IsValid a'
    × (contents a' ≡ erase_first (is_mask (codes "B!*")) (contents two_masks))
del_ban-erase_first_example = del_ban-erase_first db channel channel-IsValidChannel (codes "B!*") tt

del_masks-Erases_example :
    Erases
      (λ a. record channel { excepts = a })
      two_masks
      (codes "b!*")
      (made db channel channel-IsValidChannel
        (sql_channel_exception db 2 channel (some (codes "b!*"))))
      (del_exception db (some channel) (some (codes "b!*")))
    × Erases
        (λ a. record channel { invite = a })
        two_masks
        (codes "b!*")
        (made db channel channel-IsValidChannel
          (sql_channel_invite db 2 channel (some (codes "b!*"))))
        (del_invite db (some channel) (some (codes "b!*")))
    × Erases
        (λ a. record channel { quiet = a })
        two_masks
        (codes "b!*")
        (made db channel channel-IsValidChannel
          (sql_channel_quiet db 2 channel (some (codes "b!*"))))
        (del_quiet db (some channel) (some (codes "b!*")))
del_masks-Erases_example =
    del_masks-Erases db channel channel-IsValidChannel (codes "b!*")
      (record { excepts = omega arith; invite = omega arith; quiet = omega arith })

del_exception-fault_example : del_exception db (some crowded) (some (codes "D")) ≡ fault
unfolding any stricmp_slot
del_exception-fault_example =
    del_exception-fault db crowded crowded-IsValidChannel (codes "D") refl refl
