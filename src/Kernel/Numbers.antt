-- ===== src/Kernel/Numbers.antt =====
-- The numbers of the system calls, `int_80` of Kernel/irqDispatcher.c.
use peps_os.Common.{ℕ, Option, none, some, List, [], ◌∷◌, get_or}

-- A case of the `switch`, named for what it does.
pub data Call : Type 0 where
  printing_regs clearing drawing_rectangle drawing_circle drawing_face : Call
  getting_char waiting_ticks getting_ticks setting_size beeping : Call
  getting_width getting_height deleting_letter drawing_letter getting_size : Call
  setting_x setting_y getting_x getting_y getting_bg : Call
  getting_fg pointing_fg pointing_x pointing_y setting_fg : Call
  setting_bg putting_pixels getting_seconds painting printing_integer : Call
  formatting_letter formatting_string formatting_integer getting_minutes getting_hours : Call
  getting_day getting_month getting_year allocating getting_pid : Call
  creating_background creating_foreground exiting freeing opening_sem : Call
  closing_sem creating_sem posting_sem waiting_sem opening_pipe : Call
  closing_pipe writing_pipe reading_pipe changing_priority listing : Call
  killing blocking unblocking yielding getting_mem_state : Call
  printing_process sleeping printing_hex printing_long waiting_kids : Call
  starting_gameplay ending_gameplay breaking_line getting_sem_index writing : Call
  reading resetting_color setting_color creating_with_pipes : Call

-- The cases, by their numbers; `none` is for those that are missing.
abbrev pub cases : List (Option Call)
cases =
    none
    ∷ some printing_regs
    ∷ some clearing
    ∷ some drawing_rectangle
    ∷ some drawing_circle
    ∷ some drawing_face
    ∷ some getting_char
    ∷ some waiting_ticks
    ∷ some getting_ticks
    ∷ some setting_size
    ∷ some beeping
    ∷ some getting_width
    ∷ some getting_height
    ∷ some deleting_letter
    ∷ some drawing_letter
    ∷ some getting_size
    ∷ some setting_x
    ∷ some setting_y
    ∷ some getting_x
    ∷ some getting_y
    ∷ some getting_bg
    ∷ some getting_fg
    ∷ some pointing_fg
    ∷ some pointing_x
    ∷ some pointing_y
    ∷ some setting_fg
    ∷ some setting_bg
    ∷ some putting_pixels
    ∷ some getting_seconds
    ∷ some painting
    ∷ some printing_integer
    ∷ some formatting_letter
    ∷ some formatting_string
    ∷ some formatting_integer
    ∷ some getting_minutes
    ∷ some getting_hours
    ∷ some getting_day
    ∷ some getting_month
    ∷ some getting_year
    ∷ some allocating
    ∷ none
    ∷ some getting_pid
    ∷ some creating_background
    ∷ some creating_foreground
    ∷ some exiting
    ∷ some freeing
    ∷ some opening_sem
    ∷ some closing_sem
    ∷ some creating_sem
    ∷ some posting_sem
    ∷ some waiting_sem
    ∷ some opening_pipe
    ∷ some closing_pipe
    ∷ some writing_pipe
    ∷ some reading_pipe
    ∷ some changing_priority
    ∷ some listing
    ∷ some killing
    ∷ some blocking
    ∷ some unblocking
    ∷ some yielding
    ∷ some getting_mem_state
    ∷ some printing_process
    ∷ some sleeping
    ∷ some printing_hex
    ∷ some printing_long
    ∷ some waiting_kids
    ∷ some starting_gameplay
    ∷ some ending_gameplay
    ∷ some breaking_line
    ∷ some getting_sem_index
    ∷ some writing
    ∷ some reading
    ∷ some resetting_color
    ∷ some setting_color
    ∷ some creating_with_pipes
    ∷ []

abbrev pub call_of : ℕ → Option Call
call_of rdi = get_or cases rdi none
