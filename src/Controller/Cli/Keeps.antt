-- ===== src/Controller/Cli/Keeps.antt =====
-- The parts of a run that leave the configuration file alone.
use mum.Common.{
  ◌≡◌, refl, ◌∙◌, Text, inl, inr, Option, some, none, Option-cases, done, panic, overrun, ok, err,
  WhenDone, WhenDone-imp,
}
use mum.Mumlib.Command.{Command, Response}
use mum.Controller.Cli.{
  Cli, Run, Terminal, Outside, and_then, or_panic, send, send_command, send_command_multi, accepted,
  reply, framed, ◌>>=◌, ◌>>◌, print,
}

-- The file is as it was in every run that returns, failures included.
abbrev pub KeepsIn : {A : Type 0} → Terminal → Run A → Type 0
KeepsIn t m = WhenDone (λ r. r.0.file ≡ t.file) m

abbrev pub Keeps : {A : Type 0} → Cli A → Type 0
Keeps m = (t : Terminal) → KeepsIn t (m t)

pub and_then-KeepsIn :
    {A B : Type 0} (t : Terminal) (m : Run A) (f : A → Cli B)
    → KeepsIn t m
    → ((a : A) → Keeps (f a))
    → KeepsIn t (and_then m f)
and_then-KeepsIn t (done (u, ok a)) f h k = WhenDone-imp _ _ (f a u) (k a u) λ r e. e ∙ h
and_then-KeepsIn t (done (u, err e)) f h k = h
and_then-KeepsIn t panic f h k = tt
and_then-KeepsIn t overrun f h k = tt

pub >>=-Keeps :
    {A B : Type 0} (m : Cli A) (f : A → Cli B) → Keeps m → ((a : A) → Keeps (f a)) → Keeps (m >>= f)
>>=-Keeps m f h k t = and_then-KeepsIn t (m t) f (h t) k

pub >>-Keeps : {A B : Type 0} (m : Cli A) (n : Cli B) → Keeps m → Keeps n → Keeps (m >> n)
>>-Keeps m n h k = >>=-Keeps m (λ a. n) h λ a. k

pub print-Keeps : (s : Text) → Keeps (print s)
print-Keeps s t = refl

pub or_panic-Keeps : {A : Type 0} (a : Option A) → Keeps (or_panic a)
or_panic-Keeps none t = tt
or_panic-Keeps (some a) t = refl

module _ (o : Outside) where
  pub send_command-Keeps : (c : Command) → Keeps (send_command o c)
  unfolding send_command
  send_command-Keeps c t = elim (Option-cases (reply o t.sent c)) [
    | inl gone ↦ rw (send_command, gone) refl
    | inr (response, came) ↦ rw (send_command, came) refl
  ]

  pub send_command_multi-Keeps : (c : Command) → Keeps (send_command_multi o c)
  unfolding send_command_multi
  send_command_multi-Keeps c t = elim (Option-cases (o.exchange t.sent (framed o c))) [
    | inl gone ↦ rw (send_command_multi, gone) refl
    | inr (bytes, came) ↦ rw (send_command_multi, came) refl
  ]

  accepted-Keeps : (r : Response) → Keeps (accepted o r)
  accepted-Keeps (ok response) t = refl
  accepted-Keeps (err e) t = refl

  pub send-Keeps : (c : Command) → Keeps (send o c)
  unfolding send
  send-Keeps c = >>=-Keeps (send_command o c) (accepted o) (send_command-Keeps c) accepted-Keeps
