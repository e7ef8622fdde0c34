-- ===== src/Console/Tests.antt =====
-- Concrete lines.
use multiserver.Shared.{
  ℕ, zero, suc, ◌≡◌, ◌≢◌, refl, List, [], ◌∷◌, Bytes, replicate, length-replicate, All, arith,
  bytes_eq, true, false,
}
use multiserver.Shared.Run.{panic}
use multiserver.Console.{Logger, Line, History}
use multiserver.Console.Overflow.{IsLine, run_log, scrolled_log_panics}
use multiserver.Text.{has_prefix}

abbrev full : List ℕ
full = 1 ∷ 2 ∷ 3 ∷ []

abbrev four : ℕ
four = 4

abbrev message : Bytes
message = 97 ∷ 10 ∷ []

-- The message `a`, 1024 times, while the console is scrolled up by one line.
abbrev messages : List Bytes
messages = replicate 1024 message

message-IsLine : IsLine message
message-IsLine = record { text = 97 ∷ []; one_line = (λ h. omega arith, tt); ends = refl }

replicate-IsLine : (n : ℕ) → All IsLine (replicate n message)
replicate-IsLine zero = tt
replicate-IsLine (suc n) = (message-IsLine, replicate-IsLine n)

abbrev scrolled : Logger
scrolled = record { lines = (98 ∷ []) ∷ []; all = []; offset = 1 }

scrolled_log_panics_example : run_log (λ i. []) 25 messages scrolled ≡ panic
scrolled_log_panics_example =
    scrolled_log_panics (λ i. []) 25 messages scrolled (omega arith) (omega arith) (omega arith)
      (replicate-IsLine 1024) (omega (arith, length-replicate 1024 message))

abbrev help : Line
help = 1 ∷ []

abbrev list : Line
list = 2 ∷ []

help_other : help ≢ list
help_other h = cc

abbrev at_end : History
at_end = record { lines = help ∷ list ∷ []; i = 0 }

abbrev three : Bytes
three = 3 ∷ []

abbrev other : Bytes
other = 1 ∷ 2 ∷ []

three_begins : has_prefix three three ≡ true
unfolding has_prefix
three_begins = refl

one_differs : has_prefix other three ≡ false
unfolding has_prefix
one_differs = refl
