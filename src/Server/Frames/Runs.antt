-- ===== src/Server/Frames/Runs.antt =====
-- Runs of the walk over the stack of server/server.go.
use debug.Common.{little_endian, true, false, some, [], ◌∷◌}
use debug.Common.Result.{ok}
use debug.Arch.{amd64}
use debug.Dwarf.Data.{Data}
use debug.Dwarf.Reader.{reader}
use debug.Server.Kernel.{Kernel}
use debug.Server.Breakpoints.{Server}
use debug.Server.Frames.{walk_stack}
use debug.Server.Frames.Chain.{Chain, OnFrames, walk_stack-Chain}

-- A function "f" at 0x10 to 0x1f, in line 1 of "a", with a frame of 8 bytes. An address has one byte.
abbrev one_function : Data
one_function = record {
  abbrevs = [];
  frame =
      12 ∷ 0 ∷ 0 ∷ 0 ∷ 0xff ∷ 0xff ∷ 0xff ∷ 0xff ∷ 3 ∷ 0 ∷ 1 ∷ 0x78 ∷ 16 ∷ 0x0c ∷ 7 ∷ 8 ∷ 6 ∷ 0 ∷ 0
      ∷ 0 ∷ 0 ∷ 0 ∷ 0 ∷ 0 ∷ 0x10 ∷ 0x10 ∷ [];
  info = [];
  line =
      32 ∷ 0 ∷ 0 ∷ 0 ∷ 3 ∷ 0 ∷ 0 ∷ 0 ∷ 0 ∷ 0 ∷ 1 ∷ 1 ∷ 0xff ∷ 4 ∷ 10 ∷ 0 ∷ 1 ∷ 1 ∷ 1 ∷ 1 ∷ 0 ∷ 0 ∷ 0
      ∷ 1 ∷ 0 ∷ 97 ∷ 0 ∷ 0 ∷ 0 ∷ 0 ∷ 0 ∷ 0 ∷ 2 ∷ 2 ∷ 0x10 ∷ 1 ∷ [];
  str = [];
  order = little_endian;
  units =
      record {
        base = 0;
        off = 11;
        content = 1 ∷ 102 ∷ 0 ∷ 0x10 ∷ 0x20 ∷ 0 ∷ [];
        atable =
            (
              1,
              record {
                tag = 0x2E;
                children = false;
                field =
                    record { attr = 3; fmt = 8 }
                    ∷ record { attr = 0x11; fmt = 1 }
                    ∷ record { attr = 0x12; fmt = 1 }
                    ∷ [];
              },
            )
            ∷ [];
        asize = 1;
        vers = 2;
        is64 = false;
      }
      ∷ [];
}

-- Memory holds 0 everywhere; its state is of no use.
abbrev zeros : Kernel (Unit {0})
zeros = record {
  ptrace_peek_text = λ pid a n w. (w, ok (n, 0 ∷ 0 ∷ 0 ∷ 0 ∷ 0 ∷ 0 ∷ 0 ∷ 0 ∷ []));
  ptrace_poke_text = λ pid a bs w. (w, ok 0);
  ptrace_cont = λ pid signal w. (w, ok tt);
  ptrace_get_regs = λ pid w. (w, ok (record { rip = 0x10; rsp = 0x100; others = [] }));
  ptrace_set_regs = λ pid r w. (w, ok tt);
  ptrace_set_options = λ pid o w. (w, ok tt);
  ptrace_single_step = λ pid w. (w, ok tt);
  wait4 = λ pid w. (w, ok (1, 5));
  kill = λ pid signal w. (w, ok tt);
  stop_signal = λ s. s;
  trap_cause = λ s. 0;
  is_stopped = λ s. true;
  sigtrap = 5;
  sigstop = 19;
  event_clone = 3;
  option_clone = 8;
}

abbrev stopped_server : Server
stopped_server = record {
  arch = amd64;
  dwarf_data = some one_function;
  proc = some 1;
  proc_is_up = true;
  stopped_pid = 1;
  stopped_regs = record { rip = 0x10; rsp = 0x100; others = [] };
  top_of_stack_addrs = 0x30 ∷ [];
  breakpoints = [];
}

walk_stack-Chain_example :
    OnFrames
      (Chain one_function 2 0x10 0x100)
      (walk_stack zeros 9 one_function stopped_server 2 (reader one_function) 0x10 0x100 tt)
walk_stack-Chain_example =
    walk_stack-Chain zeros 9 one_function stopped_server 2 (reader one_function) 0x10 0x100 tt
