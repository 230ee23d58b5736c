-- ===== src/App/Tests/Options.antt =====
-- A small instance of the options library: a map is a function, and a source says what it gives and
-- whether it can be parsed. A value of another type than its option's is passed over.
use tiksrv.Base.{
  ◌≡◌, ◌≢◌, refl, Bool, true, false, Option, none, some, Bytes, Bool-cases, inl, inr, if◌then◌else◌,
}
use tiksrv.App.Config.{
  Value, uint16, uint32, text, ValueType, is_uint16, is_uint32, is_text, HasType, Fits,
  OptionDescription, Options, find_option, ProgramOptions,
}

abbrev pub Source : Type 0
Source = Bool × (Bytes → Option Value)

abbrev pub Values : Type 0
Values = Bytes → Option Value

abbrev matches : ValueType → Value → Bool
matches is_uint16 (uint16 n) = true
matches is_uint32 (uint32 n) = true
matches is_text (text s) = true
matches _ _ = false

abbrev chosen : ValueType → Option Value → Option Value → Option Value
chosen t none d = d
chosen t (some v) d = if matches t v then some v else d

abbrev filled : Option Value → Option OptionDescription → Option Value → Option Value
filled (some v) o g = some v
filled none none g = none
filled none (some o) g = chosen o.type g o.default

abbrev stored : Options → Source → Values → Values × Bool
stored os (true, given) vm = (vm, true)
stored os (false, given) vm = (λ name. filled (vm name) (find_option name os) (given name), false)

matches-HasType : (t : ValueType) (v : Value) → matches t v ≡ true → HasType t v
matches-HasType is_uint16 (uint16 n) h = tt
matches-HasType is_uint32 (uint32 n) h = tt
matches-HasType is_text (text s) h = tt
matches-HasType is_uint16 (uint32 n) h = cc
matches-HasType is_uint16 (text n) h = cc
matches-HasType is_uint32 (uint16 n) h = cc
matches-HasType is_uint32 (text n) h = cc
matches-HasType is_text (uint16 n) h = cc
matches-HasType is_text (uint32 n) h = cc

some-ne-none : (v : Value) → some v ≢ none
some-ne-none v e = cc

filled-Fits :
    (x : Option Value) (o : OptionDescription) (g : Option Value)
    → Fits o.type o.default
    → Fits o.type x
    → Fits o.type (filled x (some o) g)
filled-Fits (some v) o g d h = h
filled-Fits none o none d h = d
filled-Fits none o (some v) d h = elim (Bool-cases (matches o.type v)) [
  | inl fits ↦ rw fits (matches-HasType o.type v fits)
  | inr other ↦ rw other d
]

filled-default :
    (x : Option Value) (o : OptionDescription) (g : Option Value)
    → o.default ≢ none
    → filled x (some o) g ≢ none
filled-default (some v) o g d = some-ne-none v
filled-default none o none d = d
filled-default none o (some v) d = elim (Bool-cases (matches o.type v)) [
  | inl fits ↦ rw fits (some-ne-none v)
  | inr other ↦ rw other d
]

filled-keeps :
    (x : Option Value) (o : Option OptionDescription) (g : Option Value)
    → x ≢ none
    → filled x o g ≢ none
filled-keeps (some v) o g n = n
filled-keeps none o g n = absurd (n refl)

filled-other : (x g : Option Value) → filled x none g ≡ x
filled-other (some v) g = refl
filled-other none g = refl

pub stored-typed :
    (os : Options) (src : Source) (vm : Values) (name : Bytes) {o : OptionDescription}
    → find_option name os ≡ some o
    → Fits o.type o.default
    → Fits o.type (vm name)
    → Fits o.type ((stored os src vm).0 name)
stored-typed os (true, given) vm name f d h = h
stored-typed os (false, given) vm name {o} f d h = rw f (filled-Fits (vm name) o (given name) d h)

pub stored-default :
    (os : Options) (src : Source) (vm : Values) (name : Bytes) {o : OptionDescription}
    → find_option name os ≡ some o
    → o.default ≢ none
    → (stored os src vm).1 ≡ false
    → (stored os src vm).0 name ≢ none
stored-default os (true, given) vm name f d went = cc
stored-default os (false, given) vm name {o} f d went =
    rw f (filled-default (vm name) o (given name) d)

pub stored-keeps :
    (os : Options) (src : Source) (vm : Values) (name : Bytes)
    → vm name ≢ none
    → (stored os src vm).0 name ≢ none
stored-keeps os (true, given) vm name n = n
stored-keeps os (false, given) vm name n =
    filled-keeps (vm name) (find_option name os) (given name) n

pub stored-other :
    (os : Options) (src : Source) (vm : Values) (name : Bytes)
    → find_option name os ≡ none
    → (stored os src vm).0 name ≡ vm name
stored-other os (true, given) vm name f = refl
stored-other os (false, given) vm name f = rw f (filled-other (vm name) (given name))

abbrev pub options : ProgramOptions
options = record {
  VariablesMap = Values;
  Source = Source;
  no_values = λ name. none;
  value_of = λ name vm. vm name;
  store = stored;
  value_of-no_values = λ name. refl;
  store-typed = stored-typed;
  store-default = stored-default;
  store-keeps = stored-keeps;
  store-other = stored-other;
}

-- Nothing is given.
abbrev pub nothing : Source
nothing = (false, λ name. none)
