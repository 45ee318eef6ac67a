-- ===== src/Ata/Channel.antt =====
-- A channel with two drives, as the ATA standard describes it: the machine that the transfers and
-- IDENTIFY are run on. Both drives are there, so that no status is 0. Nothing here is translated.
use ety_os.Base.{ℕ, ◌+◌, ◌-◌, ◌*◌, ◌/◌, ◌%◌, ◌^◌, Bool, false, ◌&&◌, ◌==◌, ltb, if◌then◌else◌}
use ety_os.Memory.{store}
use ety_os.Bytes.{Buffer}
use ety_os.Ata.{Ports, read_sectors, write_sectors}

pub data Mode : Type 0 where
  idle : Mode
  reading : Mode
  writing : Mode
  identifying : Mode

-- The registers, the transfer that is going on, and what the two drives hold: their sectors, and the
-- words of their answers to IDENTIFY.
pub record Channel : Type 0 where
  pub select : ℕ
  pub low : ℕ
  pub mid : ℕ
  pub high : ℕ
  pub mode : Mode
  pub position : ℕ
  pub polls : ℕ
  pub failed : Bool
  pub fifo : ℕ → ℕ
  pub sectors : ℕ → ℕ → Buffer
  pub identity : ℕ → ℕ → ℕ

abbrev pub drive_of : Channel → ℕ
drive_of ch = ch.select / 16 % 2

abbrev pub address : Channel → ℕ
address ch = ch.low + 2 ^ 8 * ch.mid + 2 ^ 16 * ch.high + 2 ^ 24 * (ch.select % 16)

-- How a drive answers: how many polls it is busy for, and whether it refuses a command or fails at
-- the end of a write.
pub record Medium : Type 0 where
  pub delay : ℕ → ℕ → ℕ
  pub refuses : ℕ → ℕ → ℕ → Bool
  pub fails : ℕ → ℕ → Bool

-- The 512 bytes that a drive makes of the words sent to it.
abbrev pub bytes_of : (ℕ → ℕ) → Buffer
bytes_of words j =
    if ltb j 512 then if j % 2 == 0 then words (j / 2) % 256 else words (j / 2) / 256 % 256 else 0

abbrev pub word_of : Buffer → ℕ → ℕ
word_of b i = b (2 * i) % 256 + 256 * (b (2 * i + 1) % 256)

abbrev pub set_sector : ℕ → ℕ → Buffer → (ℕ → ℕ → Buffer) → ℕ → ℕ → Buffer
set_sector drive lba b sectors d l = if (d == drive) && (l == lba) then b else sectors d l

abbrev pub status : Channel → ℕ
status ch = if ltb 0 ch.polls then 0x80 else if ch.failed then 0x41 else 0x40

abbrev pub give_word : Mode → Channel → ℕ × Channel
give_word reading ch = (
  word_of (ch.sectors (drive_of ch) (address ch)) ch.position,
  record ch { position = ch.position + 1 },
)
give_word identifying ch =
    (ch.identity (drive_of ch) ch.position, record ch { position = ch.position + 1 })
give_word _ ch = (0, ch)

-- Each eight ports from a multiple of 8 on are a channel.
abbrev pub put : (ℕ → Channel) → ℕ → Channel → ℕ → Channel
put w base ch a = if a == base then ch else w a

abbrev pub channel_of : ℕ → ℕ
channel_of port = port / 8 * 8

module _ (m : Medium) where
  unfoldable pub command : ℕ → Mode → Channel → Channel
  command code mode ch =
      let refused = m.refuses code (drive_of ch) (address ch) in
      record ch {
        mode = if refused then idle else mode;
        position = 0;
        polls = m.delay (drive_of ch) (address ch);
        failed = refused;
      }

  unfoldable pub set_register : ℕ → ℕ → Channel → Channel
  set_register r v ch =
      if r == 3
      then record ch { low = v }
      else if r == 4
      then record ch { mid = v }
      else if r == 5
      then record ch { high = v }
      else if r == 6
      then record ch { select = v }
      else if r == 7
      then (if v == read_sectors
          then command v reading ch
          else if v == write_sectors
          then command v writing ch
          else if v == 0xEC
          then record ch {
            mode = identifying;
            position = 0;
            polls = m.delay (drive_of ch) (address ch);
            failed = false;
          }
          else ch)
      else ch

  -- The word after the last one ends the transfer and writes the sector.
  unfoldable pub take_word : ℕ → Channel → Channel
  take_word v ch =
      let fifo = store ch.fifo ch.position v in
      if ch.position == 255
      then record ch {
        mode = idle;
        fifo = fifo;
        polls = m.delay (drive_of ch) (address ch);
        failed = m.fails (drive_of ch) (address ch);
        sectors = set_sector (drive_of ch) (address ch) (bytes_of fifo) ch.sectors;
      }
      else record ch { fifo = fifo; position = ch.position + 1 }

  abbrev pub put_word : Mode → ℕ → Channel → Channel
  put_word writing v ch = take_word v ch
  put_word _ v ch = ch

  abbrev pub channels : Ports
  channels = record {
    World = ℕ → Channel;
    outb = λ port v w. put w (channel_of port) (set_register (port % 8) v (w (channel_of port)));
    outw = λ port v w.
        put w (channel_of port) (put_word (w (channel_of port)).mode v (w (channel_of port)));
    inb = λ port w. (
      status (w (channel_of port)),
      put w (channel_of port)
          (record (w (channel_of port)) { polls = (w (channel_of port)).polls - 1 }),
    );
    inw = λ port w.
        let (v, ch) = give_word (w (channel_of port)).mode (w (channel_of port)) in
        (v, put w (channel_of port) ch);
  }
