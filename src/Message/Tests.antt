-- ===== src/Message/Tests.antt =====
-- A reply in a group.
use polarix.Prelude.{
  ◌≡◌, refl, Bool, true, false, Option, none, some, List, [], ◌∷◌, ◌++◌, arith, Text, str,
}
use polarix.Message.{Message, init_ref, sends, set_initiative_message}
use polarix.Message.Replies.{sends-init_ref, sends-initiative, tries}

abbrev reply : Message
reply = record {
  msg_id = str "m";
  msg_seq = 0;
  event_id = str "e";
  has_client = true;
  target = 0;
  used = false;
  initiative_push = false;
  ref_seq = 1;
}

abbrev three : List (Bool × Option Text)
three = (true, some (str "a")) ∷ (true, none) ∷ (true, some (str "b")) ∷ []

sends-init_ref_example : tries (sends (init_ref reply) (three ++ three)).1 ≡ 4
sends-init_ref_example = sends-init_ref reply (three ++ three) refl refl

sends-initiative_example : tries (sends (set_initiative_message reply) (three ++ three)).1 ≡ 6
sends-initiative_example = sends-initiative reply (three ++ three) refl (ground arith)
