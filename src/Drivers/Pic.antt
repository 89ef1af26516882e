-- ===== src/Drivers/Pic.antt =====
-- kernel/drivers/pic.c: the two interrupt controllers.
pub mod Masks
use catch_os.Base.{ℕ, ◌+◌, ◌-◌, ◌%◌, ◌||◌, ltb, if◌then◌else◌, bit_and}
use catch_os.Base.Bits.{clear_mask}
use catch_os.Drivers.{Writes, outb}

-- The variables `pic1` and `pic2`, and the port writes.
pub record Pic : Type 0 where
  pub pic1 : ℕ
  pub pic2 : ℕ
  pub out : Writes

abbrev pub pic_remap : ℕ → ℕ → Writes → Writes
pic_remap offset1 offset2 out =
    let out = outb 0x20 (0x10 + 0x01) out in
    let out = outb 0xa0 (0x10 + 0x01) out in
    let out = outb 0x21 offset1 out in
    let out = outb 0xa1 offset2 out in
    let out = outb 0x21 4 out in
    let out = outb 0xa1 2 out in let out = outb 0x21 0x01 out in outb 0xa1 0x01 out

unfoldable pub pic_init : Pic → Pic
pic_init p = record {
  pic1 = 0xff;
  pic2 = 0xff;
  out = outb 0xa1 0xff (outb 0x21 0xff (pic_remap 0x20 0x28 p.out));
}

abbrev pub pic_uninit : Pic → Pic
pic_uninit p = pic_init p

unfoldable pub pic_enable_irq : ℕ → Pic → Pic
pic_enable_irq irq_no p =
    let one = bit_and p.pic1 (clear_mask irq_no) % 256 in
    let two = bit_and p.pic2 (clear_mask (irq_no - 8)) % 256 in
    if ltb irq_no 8
    then record p { pic1 = one; out = outb 0x21 one p.out }
    else if ltb irq_no 16
    then record p { pic2 = two; out = outb 0xa1 two p.out }
    else p

unfoldable pub pic_ack : ℕ → Writes → Writes
pic_ack pic_int_num out =
    if ltb pic_int_num 0x20 || ltb (0x28 + 7) pic_int_num
    then out
    else if ltb pic_int_num 0x28
    then outb 0x20 0x20 out
    else outb 0xa0 0x20 out
