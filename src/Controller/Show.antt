-- ===== src/Controller/Show.antt =====
-- mum/src/bin/mumctl.rs: how the state of the server and the tree of channels are printed.
pub mod Lines
pub mod Keeps
use mum.Common.{
  ℕ, zero, suc, ◌+◌, ◌-◌, ◌==◌, Text, text, show, text_eq, Bool, true, false, is_some, Option, some,
  none, List, [], ◌∷◌, ◌++◌, find, length, Result, ok, Outcome, done, panic, overrun, if◌then◌else◌,
}
use mum.Mumlib.Tree
use mum.Mumlib.Tree.{User, Channel, Channels, channel, Server, show_user}
use mum.Mumlib.Iter.{iter, find_next}
use mum.Controller.Cli.{Cli, Outside, return, panics, print, or_panic, ◌>>=◌, ◌>>◌}

abbrev indentation : Text
indentation = text "  "

abbrev indented : ℕ → Text
indented zero = []
indented (suc n) = indentation ++ indented n

abbrev pub users_of : Channel → List User
users_of (channel description max_users name children users links) = users

abbrev pub name_of : Channel → Text
name_of (channel description max_users name children users links) = name

abbrev pub has_user : Text → Channel → Bool
has_user name c = is_some (find (λ u. text_eq u.name name) (users_of c))

-- How many channels there are.
abbrev mutual
  pub size : Channel → ℕ
  size (channel description max_users name children users links) = suc (sizes children)

  pub sizes : Channels → ℕ
  sizes Channels.nil = 0
  sizes (Channels.cons c cs) = size c + sizes cs

print_users : Text → List User → Cli Unit
print_users before [] = return tt
print_users before (u ∷ us) = do print (before ++ show_user u); print_users before us

print_own : Channel → Cli Unit
unfolding print_users
print_own c = do
  print (
      text "Currently in "
      ++ (name_of c
          ++ (text " with "
              ++ (show (length (users_of c) - 1)
                  ++ (text " other client"
                      ++ ((if length (users_of c) == 2 then [] else text "s") ++ text ":"))))))
  print (indentation ++ name_of c)
  print_users (indentation ++ indentation) (users_of c)

-- `unwrap` on what a search came to.
unwrap_found : {A : Type 0} → Outcome (Option A) → Cli A
unwrap_found (done (some a)) t = done (t, ok a)
unwrap_found (done none) t = panic
unwrap_found panic t = panic
unwrap_found overrun t = overrun

-- A server without a channel with our user panics.
unfoldable pub parse_state : Server → Cli Unit
unfolding unwrap_found print_own
parse_state s = do
  print (text "Connected to " ++ (s.host ++ (text " as " ++ s.username)))
  own ← unwrap_found (find_next (suc (size s.channels)) (has_user s.username) (iter s.channels))
  print_own own

abbrev print_line : Outside → Channel → ℕ → Text
print_line o (channel description max_users name children users links) depth =
    indented depth
    ++ (o.bold name
        ++ (if max_users == 0
            then []
            else text " " ++ (show (length users) ++ (text "/" ++ show max_users))))

-- `print_channel`.
unfoldable mutual
  unfolding print_users

  pub print_channel : Outside → Channel → ℕ → Cli Unit
  print_channel o (channel description max_users name children users links) depth = do
    print (print_line o (channel description max_users name children users links) depth)
    print_users (indented (suc depth) ++ text "- ") users
    print_children o children (suc depth)

  pub print_children : Outside → Channels → ℕ → Cli Unit
  print_children o Channels.nil depth = return tt
  print_children o (Channels.cons c cs) depth = do
    print_channel o c depth
    print_children o cs depth
