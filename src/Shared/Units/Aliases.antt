-- ===== src/Shared/Units/Aliases.antt =====
-- The table `ALIASES` of packages/shared/src/units.ts.
use brsr_v.Prelude.{List, [], ◌∷◌, Text, codes}

abbrev pub aliases : List (Text × Text)
aliases =
    (codes "kwh", codes "kwh")
    ∷ (codes "mwh", codes "mwh")
    ∷ (codes "gwh", codes "gwh")
    ∷ (codes "twh", codes "twh")
    ∷ (codes "kilowatt-hour", codes "kwh")
    ∷ (codes "kilowatt hour", codes "kwh")
    ∷ (codes "kilowatt hours", codes "kwh")
    ∷ (codes "btu", codes "btu")
    ∷ (codes "therms", codes "therm")
    ∷ (codes "tonne", codes "t")
    ∷ (codes "tonnes", codes "t")
    ∷ (codes "ton", codes "t")
    ∷ (codes "tons", codes "t")
    ∷ (codes "metric_ton", codes "t")
    ∷ (codes "metric ton", codes "t")
    ∷ (codes "metric tons", codes "t")
    ∷ (codes "metric_tons", codes "t")
    ∷ (codes "pound", codes "lb")
    ∷ (codes "pounds", codes "lb")
    ∷ (codes "lbs", codes "lb")
    ∷ (codes "ounce", codes "oz")
    ∷ (codes "ounces", codes "oz")
    ∷ (codes "gram", codes "g")
    ∷ (codes "grams", codes "g")
    ∷ (codes "kilogram", codes "kg")
    ∷ (codes "kilograms", codes "kg")
    ∷ (codes "liter", codes "l")
    ∷ (codes "liters", codes "l")
    ∷ (codes "litre", codes "l")
    ∷ (codes "litres", codes "l")
    ∷ (codes "milliliter", codes "ml")
    ∷ (codes "milliliters", codes "ml")
    ∷ (codes "cubicmeter", codes "m3")
    ∷ (codes "cubic meter", codes "m3")
    ∷ (codes "cubic meters", codes "m3")
    ∷ (codes "m^3", codes "m3")
    ∷ (codes "gallon", codes "gal_us")
    ∷ (codes "gallons", codes "gal_us")
    ∷ (codes "us gallon", codes "gal_us")
    ∷ (codes "uk gallon", codes "gal_uk")
    ∷ (codes "imperial gallon", codes "gal_uk")
    ∷ (codes "barrel", codes "bbl")
    ∷ (codes "barrels", codes "bbl")
    ∷ (codes "m^2", codes "m2")
    ∷ (codes "sq m", codes "m2")
    ∷ (codes "sqm", codes "m2")
    ∷ (codes "hectares", codes "ha")
    ∷ (codes "hectare", codes "ha")
    ∷ (codes "acres", codes "acre")
    ∷ (codes "meter", codes "m")
    ∷ (codes "meters", codes "m")
    ∷ (codes "kilometer", codes "km")
    ∷ (codes "kilometers", codes "km")
    ∷ (codes "mile", codes "mi")
    ∷ (codes "miles", codes "mi")
    ∷ (codes "feet", codes "ft")
    ∷ (codes "foot", codes "ft")
    ∷ (codes "second", codes "s")
    ∷ (codes "seconds", codes "s")
    ∷ (codes "sec", codes "s")
    ∷ (codes "minute", codes "min")
    ∷ (codes "minutes", codes "min")
    ∷ (codes "mins", codes "min")
    ∷ (codes "hour", codes "h")
    ∷ (codes "hours", codes "h")
    ∷ (codes "hr", codes "h")
    ∷ (codes "hrs", codes "h")
    ∷ (codes "day", codes "d")
    ∷ (codes "days", codes "d")
    ∷ (codes "watt", codes "w")
    ∷ (codes "watts", codes "w")
    ∷ (codes "kilowatt", codes "kw")
    ∷ (codes "kilowatts", codes "kw")
    ∷ (codes "megawatt", codes "mw")
    ∷ (codes "megawatts", codes "mw")
    ∷ (codes "horsepower", codes "hp")
    ∷ (codes "kg co2e", codes "kgco2e")
    ∷ (codes "kgco2-e", codes "kgco2e")
    ∷ (codes "kg co2-e", codes "kgco2e")
    ∷ (codes "tco2-e", codes "tco2e")
    ∷ (codes "t co2e", codes "tco2e")
    ∷ (codes "g co2e", codes "gco2e")
    ∷ []
