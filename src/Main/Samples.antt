-- ===== src/Main/Samples.antt =====
-- A small run of src/main.cpp, for the tests: two frames, an event, a broker.
use packetpipe.Common.{ℕ, suc, true, none, List, [], ◌∷◌, ◌++◌, replicate}
use packetpipe.Common.Int.{pos}
use packetpipe.Events.{FlowEvent, start, idle_timeout}
use packetpipe.Kafka.KafkaProducer.{Librdkafka}
use packetpipe.Packets.Decoder.Frame.{frame_bytes, ipv4, tcp}
use packetpipe.Packets.Sources.{CapturedFrame}
use packetpipe.Main.{Step, captures, drains, retries, takes, flushes}

abbrev pub broker : Librdkafka ℕ ℕ ℕ
broker = record {
  rd_produce = λ key payload taken. (true, suc taken);
  rd_poll = λ taken. ([], taken);
  rd_flush = λ taken. ([], true, taken);
}

abbrev pub segment : CapturedFrame
segment = record {
  bytes = frame_bytes (record {
    macs = replicate 12 0xaa;
    tag = none;
    header = ipv4 (record {
      ihl = 5;
      tos = 0;
      total_length = 40;
      ident = 0 ∷ 1 ∷ 0 ∷ 0 ∷ 64 ∷ [];
      checksum = 0 ∷ 0 ∷ [];
      source = 10 ∷ 0 ∷ 0 ∷ 1 ∷ [];
      target = 10 ∷ 0 ∷ 0 ∷ 2 ∷ [];
      options = [];
    });
    segment = tcp 443 51000 (replicate 9 0) 0x10 (replicate 6 0);
  });
  caplen = 54;
  ts = record { tv_sec = pos 1; tv_usec = pos 0 };
}

-- An ARP request, cut short.
abbrev pub arp : CapturedFrame
arp = record segment { bytes = replicate 12 0xff ++ 8 ∷ 6 ∷ []; caplen = 14 }

abbrev pub some_event : FlowEvent
some_event = record {
  type = start;
  state = record {
    key = record { src_ip = []; dst_ip = []; src_port = 0; dst_port = 0; protocol = 0 };
    start_us = pos 0;
    last_seen_us = pos 0;
    packet_count = 0;
    byte_count = 0;
  };
  event_timestamp_us = pos 0;
  reason = idle_timeout;
}

abbrev pub steps : List Step
steps =
    captures segment
    ∷ retries
    ∷ captures arp
    ∷ takes
    ∷ drains (pos 2_000_000)
    ∷ retries
    ∷ takes
    ∷ flushes
    ∷ []
