-- ===== src/Examples/Data.antt =====
-- Worlds, surroundings and memory chips to run the firmware on.
use spiflash_programmer.Prelude.{
  ℕ, zero, suc, ◌+◌, ◌-◌, ◌*◌, ◌%◌, ◌≡◌, false, List, [], ◌∷◌, ◌++◌, Option, none, some, ◌==◌,
  if◌then◌else◌, length, replicate, byte_at, arith, length-append, length-replicate,
}
use spiflash_programmer.Protocol.{idle}
use spiflash_programmer.Protocol.Layout.{no_page, no_status}
use spiflash_programmer.Machine.{
  World, SpiChip, target, FlashChip, EpStatus, Pointer, Callback, normal,
}
use spiflash_programmer.Machine.Action.{Env, Outcome, done, fault, spin}
use spiflash_programmer.Spi.Transaction.{transaction}
use spiflash_programmer.Spi.Stream.{IsReadable, command}

-- The position that a chip has reached after a command: the address and how many bytes since.
abbrev pub position : List ℕ → ℕ
position [] = 0
position (b ∷ bytes) =
    if length bytes == 3
    then byte_at bytes 1 * 65536 + byte_at bytes 0 * 256 + b
    else position bytes + 1

position-command :
    (k a2 a1 a0 : ℕ)
    → position (replicate k 0 ++ command 0x03 a2 a1 a0) ≡ a2 * 65536 + a1 * 256 + a0 + k
position-command zero a2 a1 a0 = omega arith
position-command (suc k) a2 a1 a0 = ground (
  arith,
  position-command k a2 a1 a0,
  length-append (replicate k 0) (command 0x03 a2 a1 a0),
  length-replicate {A = ℕ} k 0,
)

-- A memory whose byte at an address is the address's low byte.
abbrev pub memory : ℕ → ℕ
memory a = a % 256

abbrev answer : Option (List ℕ) → ℕ
answer none = 0xff
answer (some bytes) = memory (position bytes - 1)

abbrev pub memory_env : Env
memory_env = record {
  reply = λ log. answer (transaction target log);
  read_ep = λ log status buffer. (record status { transfer_count = 0 }, buffer);
  needs_arming = λ arms flags. flags;
  reset_status = λ flags. 0;
  ep_buffer_size = 4;
  polls = 2;
  clz = λ value. 0;
}

pub memory_env-IsReadable : IsReadable memory_env target memory
memory_env-IsReadable = record {
  answers = λ log k a2 a1 a0 h. rw h (ground (arith, position-command (suc k) a2 a1 a0));
  is_byte = λ a. omega arith;
}

-- Chips that answer every byte with 0: present, ready, and with no SFDP data.
abbrev pub quiet_env : Env
quiet_env = record memory_env { reply = λ log. 0 }

abbrev pub example_chip : FlashChip
example_chip = record {
  type = 0x40;
  reported_capacity = 0x17;
  actual_capacity = 0x17;
  erase_instruction = 0x20;
  erase_page_size = record { byte0 = 0; byte1 = 16; byte2 = 0 };
  flash_page_size = record { byte0 = 0; byte1 = 1; byte2 = 0 };
  chip_speed_mhz = 80;
}

abbrev idle_endpoint : EpStatus
idle_endpoint = record { mem_buffer = Pointer.null; transfer_count = 0; flags = 0 }

-- The world at power on.
abbrev pub power_on : World
power_on = record {
  board = record { log = []; selected = SpiChip.none; local_chip = []; reset_pin = 0 };
  target_device = SpiChip.none;
  target_id = record { manufacturer = 0; type = 0; capacity = 0 };
  target_params = record example_chip { actual_capacity = 0 };
  reading = record {
    read_mode = normal;
    read_endpoint = 1;
    read_page = no_page;
    read_count = 0;
    sfdp_address = 0;
    response = [];
  };
  erasing = record {
    begin_page = no_page;
    end_page = no_page;
    erase_operation = idle;
    erase_active = false;
  };
  writing = record {
    write_endpoint = 1;
    write_page = no_page;
    write_count = 0;
    write_total = 0;
    verify_write = false;
    verify_page = no_page;
    flash_buffer = [];
  };
  status = no_status;
  ep_in = λ n. idle_endpoint;
  ep_out = λ n. idle_endpoint;
  setup_callback = Callback.no_callback;
}

-- The same with an 8 MiB chip targeted on the external bus.
abbrev pub targeted : World
targeted = record power_on {
  target_device = target;
  target_id = record { manufacturer = 0xc8; type = 0x40; capacity = 0x17 };
  target_params = example_chip;
}

-- The world that an action ends in, or else the one it began in.
abbrev pub world_after : {A : Type 0} → Outcome (A × World) → World → World
world_after (done (a, t)) s = t
world_after fault s = s
world_after spin s = s
