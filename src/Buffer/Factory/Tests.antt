-- ===== src/Buffer/Factory/Tests.antt =====
-- A reader that is closed twice.
use ion_sfu.Prelude.{◌≡◌, refl, some, none}
use ion_sfu.Buffer.Factory.{
  Factory, PacketType, new_buffer_factory, get_or_new, get_buffer_pair, close_reader, lookup,
  delete,
}

-- The same reader, closed twice: the second time, the reader that replaced it is lost.
abbrev replaced : Factory
replaced =
    (get_or_new (close_reader (get_or_new new_buffer_factory PacketType.rtcp_buffer_packet 7).1 0)
      PacketType.rtcp_buffer_packet 7).1

reader_replaced : (get_buffer_pair replaced 7).1 ≡ some 1
unfolding get_or_new close_reader get_buffer_pair lookup delete
reader_replaced = refl

reader_lost : (get_buffer_pair (close_reader replaced 0) 7).1 ≡ none
unfolding get_or_new close_reader get_buffer_pair lookup delete
reader_lost = refl
