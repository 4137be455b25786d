-- ===== src/Controller/Show/Lines.antt =====
-- What is printed of the state of a server.
use mathlib.Core.List.{append_assoc, append-nil}
use mum.Common.{
  suc, ◌-◌, ◌≡◌, refl, ap, ◌∙◌, ◌==◌, Text, text, show, some, none, List, [], ◌∷◌, ◌++◌, map, find,
  push, length, length-append, done, panic, ok, if◌then◌else◌, arith,
}
use mum.Mumlib.Tree.{User, Channel, Channels, channel, Server, show_user}
use mum.Mumlib.Iter.Preorder.{preorder, preorder_each}
use mum.Mumlib.Iter.Preorder.Find.{find_next-preorder}
use mum.Controller.Cli.{Run, Terminal, line}
use mum.Controller.Show.{
  parse_state, print_own, print_users, unwrap_found, has_user, users_of, name_of, indentation, size,
  sizes,
}

mutual
  unfolding preorder preorder_each

  size-preorder : (c : Channel) → length (preorder c) ≡ size c
  size-preorder (channel d m n cs u l) = ap suc (sizes-preorder cs)

  sizes-preorder : (cs : Channels) → length (preorder_each cs) ≡ sizes cs
  sizes-preorder Channels.nil = refl
  sizes-preorder (Channels.cons c cs) =
      omega
        (arith, length-append (preorder c) (preorder_each cs), size-preorder c, sizes-preorder cs)

abbrev pub with_lines : Terminal → List Text → Terminal
with_lines t ls = record t { printed = t.printed ++ ls }

abbrev user_lines : List User → List Text
user_lines us = map (λ u. line ((indentation ++ indentation) ++ show_user u)) us

-- The lines about our channel, and those about the server.
abbrev pub lines_of : Server → Channel → List Text
lines_of s own =
    line (text "Connected to " ++ (s.host ++ (text " as " ++ s.username)))
    ∷ line (
        text "Currently in "
        ++ (name_of own
            ++ (text " with "
                ++ (show (length (users_of own) - 1)
                    ++ (text " other client"
                        ++ ((if length (users_of own) == 2 then [] else text "s") ++ text ":"))))))
    ∷ line (indentation ++ name_of own)
    ∷ user_lines (users_of own)

abbrev printing : Terminal → List Text → Run Unit
printing t ls = done (record t { printed = ls }, ok tt)

three_lines :
    (before : List Text) (a b c : Text) (ls : List Text)
    → push (push (push before a) b) c ++ ls ≡ before ++ a ∷ b ∷ c ∷ ls
three_lines before a b c ls =
    append_assoc (push (push before a) b) (c ∷ []) ls
    ∙ append_assoc (push before a) (b ∷ []) (c ∷ ls)
    ∙ append_assoc before (a ∷ []) (b ∷ c ∷ ls)

print_users-lines :
    (us : List User) (t : Terminal)
    → print_users (indentation ++ indentation) us t ≡ done (with_lines t (user_lines us), ok tt)
unfolding print_users
print_users-lines [] t = rw append-nil refl
print_users-lines (u ∷ us) t =
    print_users-lines us _ ∙ ap (printing t) (append_assoc t.printed (_ ∷ []) (user_lines us))

-- The state of a server is printed as the server, our channel, which is the first in pre-order that
-- has a user of our name, how many others are there, and the users of that channel; if no channel has
-- such a user it panics.
pub parse_state-lines :
    (s : Server) (t : Terminal)
    → ((own : Channel)
        → find (has_user s.username) (preorder s.channels) ≡ some own
        → parse_state s t ≡ done (with_lines t (lines_of s own), ok tt))
      × (find (has_user s.username) (preorder s.channels) ≡ none → parse_state s t ≡ panic)
unfolding parse_state print_own unwrap_found
parse_state-lines s t =
    let searched =
      find_next-preorder (has_user s.username) s.channels (suc (size s.channels))
        (omega (arith, size-preorder s.channels)) in
    (
      λ own here.
          rw (searched, here)
            (print_users-lines (users_of own) _
              ∙ ap (printing t) (three_lines t.printed _ _ _ (user_lines (users_of own)))),
      λ missing. rw (searched, missing) refl,
    )
