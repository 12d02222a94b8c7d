-- ===== src/Mobile/Composer/Tests.antt =====
-- The composer at concrete inputs.
use chat_crdt.Prelude.{
  ◌≡◌, refl, true, false, not, ◌&&◌, ◌⊎◌, none, some, List, [], ◌∷◌, ◌++◌, codes,
}
use chat_crdt.Engine.Messages.{Config, trim, is_blank}
use chat_crdt.Mobile.Samples.{sodium, list_array, chat}
use chat_crdt.Mobile.Composer.{ChatScreen, handle_change}
use chat_crdt.Mobile.Composer.Sending.{Idle, Refused, Sent, draft_never_lost}
use chat_crdt.Mobile.Composer.Typing.{
  Event, types, restores, sends, steps, shown, fresh, typing_shown,
}

abbrev config : Config
config = record {
  room_id = codes "ops";
  user_id = codes "a";
  username = codes "ann";
  encrypt = none;
}

abbrev screen : ChatScreen list_array sodium
screen = record {
  composer = record fresh {
    held = record { draft = codes " hi "; has_text = true; restored_seq = none };
  };
  chat = chat;
  engine = some [];
  send_error = none;
  sent_by_me = false;
  prev_count = 0;
}

draft_never_lost_example :
    Idle list_array sodium config (codes "m1") 5 false screen
    ⊎ (Refused list_array sodium config (codes "m1") 5 false screen
        ⊎ Sent list_array sodium config (codes "m1") 5 false [] screen)
draft_never_lost_example =
    draft_never_lost list_array sodium config (codes "m1") 5 false [] screen refl

-- A change, a change that is throttled, a restore and a send.
abbrev used : List Event
used =
    types (codes "h") 400
    ∷ types (codes "hi") 500
    ∷ restores (some (record { text = codes "lost"; seq = 1 }))
    ∷ sends
    ∷ []

typing_shown_example :
    let (c, frames) = steps used fresh in
    ((shown false frames && is_blank (trim c.held.draft)) ≡ false)
    × (c.held.has_text ≡ not (is_blank (trim c.held.draft)))
    × (shown false (frames ++ (handle_change (codes "x") 550 c).1)
        ≡ not (is_blank (trim (codes "x"))))
typing_shown_example = typing_shown used (codes "x") 550
