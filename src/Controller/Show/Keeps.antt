-- ===== src/Controller/Show/Keeps.antt =====
-- Printing leaves the configuration file alone.
use mum.Common.{
  ℕ, suc, refl, Text, text, Option, some, none, List, [], ◌∷◌, ◌++◌, Outcome, done, panic, overrun,
}
use mum.Mumlib.Tree.{User, Channel, Channels, channel, Server}
use mum.Mumlib.Iter.{iter, find_next}
use mum.Controller.Cli.{Outside}
use mum.Controller.Cli.Keeps.{Keeps, >>=-Keeps, >>-Keeps}
use mum.Controller.Show.{
  parse_state, print_own, print_users, unwrap_found, print_channel, print_children, users_of,
  indentation, indented, size, has_user,
}

print_users-Keeps : (before : Text) (us : List User) → Keeps (print_users before us)
unfolding print_users
print_users-Keeps before [] t = refl
print_users-Keeps before (u ∷ us) t = print_users-Keeps before us _

unwrap_found-Keeps : {A : Type 0} (m : Outcome (Option A)) → Keeps (unwrap_found m)
unfolding unwrap_found
unwrap_found-Keeps (done (some a)) t = refl
unwrap_found-Keeps (done none) t = tt
unwrap_found-Keeps panic t = tt
unwrap_found-Keeps overrun t = tt

print_own-Keeps : (c : Channel) → Keeps (print_own c)
unfolding print_own
print_own-Keeps c t = print_users-Keeps (indentation ++ indentation) (users_of c) _

pub parse_state-Keeps : (s : Server) → Keeps (parse_state s)
unfolding parse_state
parse_state-Keeps s t =
    >>=-Keeps
      (unwrap_found (find_next (suc (size s.channels)) (has_user s.username) (iter s.channels)))
      print_own (unwrap_found-Keeps _) print_own-Keeps _

mutual
  unfolding print_channel

  pub print_channel-Keeps :
      (o : Outside) (c : Channel) (depth : ℕ) → Keeps (print_channel o c depth)
  print_channel-Keeps o (channel d m n cs us l) depth t =
      >>-Keeps (print_users (indented (suc depth) ++ text "- ") us)
        (print_children o cs (suc depth)) (print_users-Keeps (indented (suc depth) ++ text "- ") us)
        (print_children-Keeps o cs (suc depth)) _

  print_children-Keeps :
      (o : Outside) (cs : Channels) (depth : ℕ) → Keeps (print_children o cs depth)
  print_children-Keeps o Channels.nil depth t = refl
  print_children-Keeps o (Channels.cons c cs) depth t =
      >>-Keeps (print_channel o c depth) (print_children o cs depth) (print_channel-Keeps o c depth)
        (print_children-Keeps o cs depth) t
