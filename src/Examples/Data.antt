-- ===== src/Examples/Data.antt =====
-- The calls, queues and processes that the examples share.
use inqjet.Common.{ℕ, refl, true, false, none, some, [], ◌∷◌, ◌++◌, arith}
use inqjet.Common.Bytes.{Bytes}
use inqjet.Common.Utf8.{IsText, is_utf8}
use inqjet.Config.{ColorMode, LevelFilter, BackpressureMode, Terminal, LogLevelFilter}
use inqjet.Macros.Parse.{text, hole}
use inqjet.Pod.{pod, str, other}
use inqjet.HotLog.{with_texts, format_arg, Fmt, Call}
use inqjet.HotLog.Deferred.{IsCall}
use inqjet.Logger.{Moment}
use inqjet.Builder.{InqJetBuilder, Process}
use inqjet.Examples.Queue.{list_logbuf}

abbrev pub net : Bytes
net = b'n' ∷ b'e' ∷ b't' ∷ []

abbrev pub hello : Bytes
hello = b'h' ∷ b'i' ∷ []

pub net-IsText : IsText net
unfolding is_utf8
net-IsText = refl

pub hello-IsText : IsText hello
unfolding is_utf8
hello-IsText = refl

pub query-IsText : IsText (b'?' ∷ b':' ∷ b'x' ∷ [])
unfolding is_utf8
query-IsText = refl

abbrev pub sample_fmt : Fmt
sample_fmt = record {
  fmt_pod = λ ty inner memory. inner ++ (b'#' ∷ []);
  fmt_str = λ inner bytes. bytes;
  fmt_other = λ value inner. b'?' ∷ inner;
}

-- `info!(target: "net", "a{}b{:x}{}", 7u32, other, "hi")`
abbrev pub sample_call : Call
sample_call = record {
  level = 3;
  target = net;
  line = 12;
  pieces = text (b'a' ∷ []) ∷ hole [] ∷ text (b'b' ∷ []) ∷ hole (b':' ∷ b'x' ∷ []) ∷ hole [] ∷ [];
  args = pod 0 (7 ∷ 0 ∷ 0 ∷ 0 ∷ []) ∷ other 5 ∷ str hello ∷ [];
}

pub sample_call-IsCall : IsCall sample_fmt sample_call
unfolding with_texts format_arg
sample_call-IsCall = record {
  count = refl;
  args_fit = (tt, ((query-IsText, omega arith), ((hello-IsText, omega arith), tt)));
  line_fits = omega arith;
  target_fits = omega arith;
  target_text = net-IsText;
}

-- A queue that is full, and one with room.
abbrev pub full_moment : Moment list_logbuf
full_moment = record { queue = net ∷ hello ∷ []; running = true }

abbrev pub free_moment : Moment list_logbuf
free_moment = record { queue = net ∷ []; running = true }

abbrev pub no_process : Process ℕ
no_process = record {
  logger = none;
  max_level = 0;
  color_enabled = false;
  log_max_level = LogLevelFilter.off;
  log_registered = false;
  queues = 512 ∷ [];
  flags = [];
  threads = [];
  unparked = [];
  joined = [];
}

abbrev pub pipe : Terminal
pipe = record { is_terminal = false; no_color = false; term_is_dumb = none }

abbrev pub bare : InqJetBuilder ℕ
bare = record {
  wr = some 1;
  level = none;
  cap = none;
  timeout = none;
  color_mode = ColorMode.auto;
  backpressure = BackpressureMode.backoff;
  archives = [];
}

abbrev pub complete : InqJetBuilder ℕ
complete = record bare { level = some LevelFilter.info }
