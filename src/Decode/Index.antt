-- ===== src/Decode/Index.antt =====
-- A number for each constructor of `Instr`, so that two can be compared by a test.
use mikode.Prelude.{ℕ, zero, suc, List, [], ◌∷◌, ◌≡◌, refl, sym, ap, ◌∙◌, true, ◌==◌, ==_iff}
use mikode.Decode.{Instr}

unfoldable pub index : Instr → ℕ
index Instr.adc = 0
index Instr.add = 1
index Instr.abrk = 2
index Instr.adiw = 3
index Instr.and = 4
index Instr.andi = 5
index Instr.asr = 6
index Instr.bclr = 7
index Instr.bld = 8
index Instr.branchc = 9
index Instr.branchs = 10
index Instr.bset = 11
index Instr.bst = 12
index Instr.cbr = 13
index Instr.call = 14
index Instr.com_reg = 15
index Instr.cp = 16
index Instr.cpc = 17
index Instr.cpi = 18
index Instr.cpse = 19
index Instr.dec = 20
index Instr.eor = 21
index Instr.icall = 22
index Instr.ijmp = 23
index Instr.inc = 24
index Instr.jmp = 25
index Instr.lddx = 26
index Instr.lddy = 27
index Instr.ldi = 28
index Instr.lds = 29
index Instr.lsl = 30
index Instr.lsr = 31
index Instr.mov = 32
index Instr.movw = 33
index Instr.mul = 34
index Instr.muls = 35
index Instr.neg = 36
index Instr.nop = 37
index Instr.or = 38
index Instr.ori = 39
index Instr.pop = 40
index Instr.push = 41
index Instr.ret = 42
index Instr.ror = 43
index Instr.sbc = 44
index Instr.sbci = 45
index Instr.sbiw = 46
index Instr.sbr = 47
index Instr.sbrc = 48
index Instr.sbrs = 49
index Instr.ser = 50
index Instr.stdx = 51
index Instr.stdy = 52
index Instr.sts = 53
index Instr.sub = 54
index Instr.subi = 55
index Instr.swap = 56
index Instr.unrecognised = 57

abbrev every : List Instr
every =
    Instr.adc ∷ Instr.add ∷ Instr.abrk ∷ Instr.adiw ∷ Instr.and ∷ Instr.andi ∷ Instr.asr
    ∷ Instr.bclr ∷ Instr.bld ∷ Instr.branchc ∷ Instr.branchs ∷ Instr.bset ∷ Instr.bst ∷ Instr.cbr
    ∷ Instr.call ∷ Instr.com_reg ∷ Instr.cp ∷ Instr.cpc ∷ Instr.cpi ∷ Instr.cpse ∷ Instr.dec
    ∷ Instr.eor ∷ Instr.icall ∷ Instr.ijmp ∷ Instr.inc ∷ Instr.jmp ∷ Instr.lddx ∷ Instr.lddy
    ∷ Instr.ldi ∷ Instr.lds ∷ Instr.lsl ∷ Instr.lsr ∷ Instr.mov ∷ Instr.movw ∷ Instr.mul
    ∷ Instr.muls ∷ Instr.neg ∷ Instr.nop ∷ Instr.or ∷ Instr.ori ∷ Instr.pop ∷ Instr.push ∷ Instr.ret
    ∷ Instr.ror ∷ Instr.sbc ∷ Instr.sbci ∷ Instr.sbiw ∷ Instr.sbr ∷ Instr.sbrc ∷ Instr.sbrs
    ∷ Instr.ser ∷ Instr.stdx ∷ Instr.stdy ∷ Instr.sts ∷ Instr.sub ∷ Instr.subi ∷ Instr.swap
    ∷ Instr.unrecognised ∷ []

abbrev nth : List Instr → ℕ → Instr
nth [] n = Instr.unrecognised
nth (i ∷ rest) zero = i
nth (i ∷ rest) (suc n) = nth rest n

unfoldable at_index : ℕ → Instr
at_index n = nth every n

at_index-index : (i : Instr) → at_index (index i) ≡ i
unfolding at_index index
at_index-index Instr.adc = refl
at_index-index Instr.add = refl
at_index-index Instr.abrk = refl
at_index-index Instr.adiw = refl
at_index-index Instr.and = refl
at_index-index Instr.andi = refl
at_index-index Instr.asr = refl
at_index-index Instr.bclr = refl
at_index-index Instr.bld = refl
at_index-index Instr.branchc = refl
at_index-index Instr.branchs = refl
at_index-index Instr.bset = refl
at_index-index Instr.bst = refl
at_index-index Instr.cbr = refl
at_index-index Instr.call = refl
at_index-index Instr.com_reg = refl
at_index-index Instr.cp = refl
at_index-index Instr.cpc = refl
at_index-index Instr.cpi = refl
at_index-index Instr.cpse = refl
at_index-index Instr.dec = refl
at_index-index Instr.eor = refl
at_index-index Instr.icall = refl
at_index-index Instr.ijmp = refl
at_index-index Instr.inc = refl
at_index-index Instr.jmp = refl
at_index-index Instr.lddx = refl
at_index-index Instr.lddy = refl
at_index-index Instr.ldi = refl
at_index-index Instr.lds = refl
at_index-index Instr.lsl = refl
at_index-index Instr.lsr = refl
at_index-index Instr.mov = refl
at_index-index Instr.movw = refl
at_index-index Instr.mul = refl
at_index-index Instr.muls = refl
at_index-index Instr.neg = refl
at_index-index Instr.nop = refl
at_index-index Instr.or = refl
at_index-index Instr.ori = refl
at_index-index Instr.pop = refl
at_index-index Instr.push = refl
at_index-index Instr.ret = refl
at_index-index Instr.ror = refl
at_index-index Instr.sbc = refl
at_index-index Instr.sbci = refl
at_index-index Instr.sbiw = refl
at_index-index Instr.sbr = refl
at_index-index Instr.sbrc = refl
at_index-index Instr.sbrs = refl
at_index-index Instr.ser = refl
at_index-index Instr.stdx = refl
at_index-index Instr.stdy = refl
at_index-index Instr.sts = refl
at_index-index Instr.sub = refl
at_index-index Instr.subi = refl
at_index-index Instr.swap = refl
at_index-index Instr.unrecognised = refl

pub index_sound : (i j : Instr) → (index i == index j) ≡ true → i ≡ j
index_sound i j h =
    sym (at_index-index i) ∙ ap at_index ((==_iff (index i) (index j)).0 h) ∙ at_index-index j
